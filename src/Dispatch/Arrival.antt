-- ===== src/Dispatch/Arrival.antt =====
-- No tip is lost while the process keeps up.
use spox.Prelude.{
  ℕ, zero, suc, Bool, if◌then◌else◌, ◌≤◌, ◌<◌, true, false, Option, none, some, List, [], ◌∷◌, ◌++◌,
  map, length, ◌≡◌, refl, sym, ap, ◌∙◌, All, append_assoc, append-nil, arith,
}
use spox.BitcoinApi.{BlockRef}
use spox.Dispatch.{
  Mailbox, Recv, received, lagged, closed, dispatch, run_turns, run_on_chain_tips, mailbox_capacity,
}
use spox.Dispatch.Schedule.{
  Act, take, drop, Turn, maybe_cons, perform, taken_by, functions, taken_during, taken, IsBounded,
}
use spox.Dispatch.Delivery.{start}

-- The tips that come before the broadcast is closed, and whether it stays open.
abbrev pub received_tips : List Recv → List BlockRef
received_tips [] = []
received_tips (received tip ∷ events) = tip ∷ received_tips events
received_tips (lagged skipped ∷ events) = received_tips events
received_tips (closed ∷ events) = []

abbrev pub stays_open : List Recv → Bool
stays_open [] = true
stays_open (received tip ∷ events) = stays_open events
stays_open (lagged skipped ∷ events) = stays_open events
stays_open (closed ∷ events) = false

abbrev pub events_of : List Turn → List Recv
events_of ts = map (λ t. t.event) ts

abbrev pub takes : ℕ → List Act
takes zero = []
takes (suc n) = take ∷ takes n

takes-All : (n : ℕ) → All (λ a. a ≡ take) (takes n)
takes-All zero = tt
takes-All (suc n) = (refl, takes-All n)

nil_of_length : {T : Type 0} (xs : List T) → length xs ≤ 0 → xs ≡ []
nil_of_length [] h = refl
nil_of_length (x ∷ xs) h = absurd (omega arith)

shorter_lem :
    {T : Type 0} {n : ℕ} (o : Option T) (xs ys : List T)
    → ys ≡ maybe_cons o xs
    → (o ≡ none → ys ≡ [])
    → length ys ≤ suc n
    → length xs ≤ n
shorter_lem none xs ys e first h = omega (arith, ap length e, ap length (first refl))
shorter_lem (some tip) xs ys e first h = omega (arith, ap length e)

module _ {M : Type 0} (mailbox : Mailbox M) (bounded : IsBounded mailbox) where
  open bounded use {contents, capacity}

  -- When a tip comes the process is alive and its mailbox has room.
  abbrev HasRoom : Recv → M → Type 0
  HasRoom (received tip) m = (mailbox.is_closed m ≡ false) × (length (contents m) < capacity m)
  HasRoom _ m = Unit

  -- Before each turn the process only takes tips, and then there is room.
  abbrev pub KeepsUp : List Turn → M → Type 0
  KeepsUp [] m = Unit
  KeepsUp (t ∷ ts) m =
      let m₁ = perform mailbox t.before m in
      All (λ a. a ≡ take) t.before
      × HasRoom t.event m₁
      × KeepsUp ts (dispatch mailbox (perform mailbox t.during) t.event m₁).1

  -- Takes give the tips of the mailbox in their order.
  takes_lem :
      (acts : List Act) (m : M)
      → All (λ a. a ≡ take) acts
      → taken_by mailbox acts m ++ contents (perform mailbox acts m) ≡ contents m
  takes_lem [] m h = refl
  takes_lem (take ∷ acts) m h =
      first_lem (mailbox.recv m).0 _ _ _ (takes_lem acts (mailbox.recv m).1 h.1)
      ∙ sym (bounded.takes m)
    where
      first_lem :
          (o : Option BlockRef) (xs ys zs : List BlockRef)
          → xs ++ ys ≡ zs
          → maybe_cons o xs ++ ys ≡ maybe_cons o zs
      first_lem none xs ys zs e = e
      first_lem (some tip) xs ys zs e = ap (◌∷◌ tip) e
  takes_lem (drop ∷ acts) m h = cc (h.0)

  -- Enough takes empty the mailbox.
  drained_lem :
      (n : ℕ) (m : M) → length (contents m) ≤ n → contents (perform mailbox (takes n) m) ≡ []
  drained_lem zero m h = nil_of_length (contents m) h
  drained_lem (suc n) m h = drained_lem n (mailbox.recv m).1 (
      shorter_lem (mailbox.recv m).0 (contents (mailbox.recv m).1) (contents m) (bounded.takes m)
        (bounded.takes_first m) h)

  -- What a turn and those after it come to, from the mailbox at its event.
  abbrev Arrives : Turn → List Turn → M → Type 0
  Arrives t ts m =
      let (goes_on, m₂) = dispatch mailbox (perform mailbox t.during) t.event m in
      let rest = run_turns mailbox (map (functions mailbox) ts) m₂ in
      let later = taken mailbox ts m₂ in
      let run = if goes_on then rest else (false, m₂) in
      (run.0 ≡ stays_open (t.event ∷ events_of ts))
      × ((taken_during mailbox t.during t.event m ++ (if goes_on then later else []))
            ++ contents run.1
          ≡ contents m ++ received_tips (t.event ∷ events_of ts))

  abbrev AllArrive : List Turn → M → Type 0
  AllArrive ts m =
      ((run_turns mailbox (map (functions mailbox) ts) m).0 ≡ stays_open (events_of ts))
      × (taken mailbox ts m ++ contents (run_turns mailbox (map (functions mailbox) ts) m).1
          ≡ contents m ++ received_tips (events_of ts))

  turn_lem :
      (t : Turn) (ts : List Turn) (event : Recv) (m : M)
      → HasRoom event m
      → KeepsUp ts (dispatch mailbox (perform mailbox t.during) event m).1
      → ((m' : M) → KeepsUp ts m' → AllArrive ts m')
      → Arrives (record t { event = event }) ts m
  unfolding dispatch
  turn_lem t ts (received tip) m h later ih =
      let sent = bounded.accepts tip m h.0 h.1 in
      let (on, all) = ih (mailbox.try_send tip m).1 (rw sent at later) in
      rw sent (
        on,
        all
            ∙ ap (λ c. c ++ received_tips (events_of ts)) ((bounded.accepted tip m sent).0)
            ∙ append_assoc (contents m) (tip ∷ []) (received_tips (events_of ts)),
      )
  turn_lem t ts (lagged n) m h later ih = ih m later
  turn_lem t ts closed m h later ih = (refl, sym (append-nil (contents m)))

  turns_lem : (ts : List Turn) (m : M) → KeepsUp ts m → AllArrive ts m
  unfolding run_turns
  turns_lem [] m h = (refl, sym (append-nil (contents m)))
  turns_lem (t ∷ ts) m (only, room, later) =
      let m₁ = perform mailbox t.before m in
      let (on, all) = turn_lem t ts t.event m₁ room later (turns_lem ts) in
      (
        on,
        append_assoc (taken_by mailbox t.before m) _ _
            ∙ ap (λ zs. taken_by mailbox t.before m ++ zs) all
            ∙ sym (append_assoc (taken_by mailbox t.before m) (contents m₁) _)
            ∙ ap (λ zs. zs ++ received_tips (events_of (t ∷ ts))) (takes_lem t.before m only),
      )

  -- The tips that the process has taken when it has drained the mailbox after these turns.
  abbrev pub all_taken : ℕ → List Turn → List BlockRef
  all_taken n ts =
      taken mailbox ts (start mailbox bounded)
      ++ taken_by mailbox (takes n) (run_on_chain_tips mailbox (map (functions mailbox) ts)).1

  -- If the process only takes tips and there is room in its mailbox whenever a tip comes, then the
  -- dispatcher goes on, also when it has lagged, until the broadcast is closed, and ends then. After some
  -- more takes the process has taken, in order, every tip that the dispatcher has received by then; tips
  -- that it has lagged behind are not among them.
  pub run_on_chain_tips-arrives :
      (ts : List Turn)
      → KeepsUp ts (start mailbox bounded)
      → ((run_on_chain_tips mailbox (map (functions mailbox) ts)).0 ≡ stays_open (events_of ts))
        × ((n : ℕ) × (all_taken n ts ≡ received_tips (events_of ts)))
  unfolding run_on_chain_tips
  run_on_chain_tips-arrives ts h =
      let (on, all) = turns_lem ts (start mailbox bounded) h in
      let final = (run_turns mailbox (map (functions mailbox) ts) (start mailbox bounded)).1 in
      let n = length (contents final) in
      let drained : taken_by mailbox (takes n) final ≡ contents final =
        rw (drained_lem n final (omega arith), append-nil) at
          (takes_lem (takes n) final (takes-All n)) in
      (on, (n, rw drained (rw (bounded.created mailbox_capacity).0 at all)))

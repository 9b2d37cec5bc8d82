-- ===== src/Dispatch/Delivery.antt =====
-- Which tips reach the process, and in which order.
use spox.Prelude.{
  Bool, true, false, Option, none, some, List, [], ◌∷◌, ◌++◌, map, subst, if◌then◌else◌,
  append_assoc, append-nil, Bool-cases, inl, inr,
}
use spox.Prelude.Subseq.{
  Subseq, Subseq-nil, Subseq-refl, Subseq-append_right, Subseq-trans, Subseq-append,
}
use spox.Dispatch.{
  Mailbox, Recv, received, lagged, closed, dispatch, run_turns, run_on_chain_tips, mailbox_capacity,
}
use spox.Dispatch.Schedule.{
  Act, take, drop, Turn, maybe_cons, perform, taken_by, functions, taken_during, taken, tip_of,
  offered, IsBounded,
}

-- Three stretches of a turn: what was taken before it, during it and after it, against what was there.
join_lem :
    {T : Type 0} (a c₀ c₁ b c₂ tip r o : List T)
    → Subseq (a ++ c₁) c₀
    → Subseq (b ++ c₂) (c₁ ++ tip)
    → Subseq r (c₂ ++ o)
    → Subseq (a ++ (b ++ r)) (c₀ ++ (tip ++ o))
join_lem a c₀ c₁ b c₂ tip r o first second third =
    let after : Subseq (b ++ r) (c₁ ++ (tip ++ o)) = rw (← append_assoc c₁ tip o) (
      Subseq-trans (Subseq-append (Subseq-refl b) third)
        (rw (← append_assoc b c₂ o) (Subseq-append second (Subseq-refl o)))) in
    Subseq-trans (Subseq-append (Subseq-refl a) after)
      (rw (← append_assoc a c₁ (tip ++ o)) (Subseq-append first (Subseq-refl (tip ++ o))))

got_lem :
    {T : Type 0} (o : Option T) (xs ys zs : List T)
    → Subseq (xs ++ ys) zs
    → Subseq (maybe_cons o xs ++ ys) (maybe_cons o zs)
got_lem none xs ys zs s = s
got_lem (some tip) xs ys zs s = Subseq.keep s

module _ {M : Type 0} (mailbox : Mailbox M) (bounded : IsBounded mailbox) where
  open bounded use {contents, capacity}

  acts_lem :
      (acts : List Act) (m : M)
      → Subseq (taken_by mailbox acts m ++ contents (perform mailbox acts m)) (contents m)
  acts_lem [] m = Subseq-refl (contents m)
  acts_lem (take ∷ acts) m =
      rw (bounded.takes m) (got_lem (mailbox.recv m).0 _ _ _ (acts_lem acts (mailbox.recv m).1))
  acts_lem (drop ∷ acts) m =
      Subseq-trans (acts_lem acts (mailbox.close m))
        (rw (bounded.drops m) (Subseq-nil (contents m)))

  turn_lem :
      (acts : List Act) (event : Recv) (m : M)
      → Subseq
          (taken_during mailbox acts event m
            ++ contents (dispatch mailbox (perform mailbox acts) event m).1)
          (contents m ++ tip_of event)
  unfolding dispatch
  turn_lem acts (received tip) m = elim (Bool-cases (mailbox.try_send tip m).0) [
    | inl sent ↦ rw (sent, (bounded.accepted tip m sent).0) (Subseq-refl _)
    | inr full ↦
        let m' = (mailbox.try_send tip m).1 in
        rw full (
          Subseq-append_right tip (
            subst (λ c. Subseq (taken_by mailbox acts m' ++ contents (perform mailbox acts m')) c)
              (bounded.refused tip m full) (acts_lem acts m')))
  ]
  turn_lem acts (lagged n) m = rw append-nil (Subseq-refl _)
  turn_lem acts closed m = rw append-nil (Subseq-refl _)

  turns_lem :
      (ts : List Turn) (m : M)
      → Subseq
          (taken mailbox ts m ++ contents (run_turns mailbox (map (functions mailbox) ts) m).1)
          (contents m ++ offered mailbox ts m)
  unfolding run_turns
  turns_lem [] m = rw append-nil (Subseq-refl _)
  turns_lem (t ∷ ts) m =
      let m₁ = perform mailbox t.before m in
      let m₂ = (dispatch mailbox (perform mailbox t.during) t.event m₁).1 in
      go_on_lem (dispatch mailbox (perform mailbox t.during) t.event m₁).0 m₁ m₂
        (acts_lem t.before m) (turn_lem t.during t.event m₁) (turns_lem ts m₂)
    where
      go_on_lem :
          (goes_on : Bool) (m₁ m₂ : M)
          → Subseq (taken_by mailbox t.before m ++ contents m₁) (contents m)
          → Subseq
              (taken_during mailbox t.during t.event m₁ ++ contents m₂)
              (contents m₁ ++ tip_of t.event)
          → Subseq
              (taken mailbox ts m₂
                ++ contents (run_turns mailbox (map (functions mailbox) ts) m₂).1)
              (contents m₂ ++ offered mailbox ts m₂)
          → Subseq
              ((taken_by mailbox t.before m
                  ++ (taken_during mailbox t.during t.event m₁
                      ++ (if goes_on then taken mailbox ts m₂ else [])))
                ++ contents
                    (if goes_on
                      then run_turns mailbox (map (functions mailbox) ts) m₂
                      else (false, m₂)).1)
              (contents m ++ (tip_of t.event ++ (if goes_on then offered mailbox ts m₂ else [])))
      go_on_lem true m₁ m₂ first second third =
          rw (append_assoc, append_assoc) (join_lem _ (contents m) _ _ _ _ _ _ first second third)
      go_on_lem false m₁ m₂ first second third =
          rw (append_assoc, append_assoc)
            (join_lem _ (contents m) (contents m₁) _ (contents m₂) _ (contents m₂) [] first second
              (rw append-nil (Subseq-refl _)))

  abbrev pub start : M
  start = mailbox.channel mailbox_capacity

  -- However the process and the dispatcher are interleaved, the tips that the process takes, followed
  -- by those that still wait in its mailbox, are a part of the tips that the dispatcher received, in
  -- their order and none of them twice.
  pub run_on_chain_tips-Subseq :
      (ts : List Turn)
      → Subseq
          (taken mailbox ts start
            ++ contents (run_on_chain_tips mailbox (map (functions mailbox) ts)).1)
          (offered mailbox ts start)
  unfolding run_on_chain_tips
  run_on_chain_tips-Subseq ts = rw (bounded.created mailbox_capacity).0 at (turns_lem ts start)

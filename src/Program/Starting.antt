-- ===== src/Program/Starting.antt =====
-- What the program watches once it has started.
use spox.Prelude.{
  ℕ, false, String, Option, none, some, List, [], ◌∷◌, ◌⊎◌, inl, inr, if◌then◌else◌, ◌==◌, nat_eq,
  list_eq, list_beq_iff, Bool-cases, ◌≡◌, refl, sym, ap, ◌∙◌,
}
use spox.Error.{Result, ok, err}
use spox.Result
use spox.Result.{bind-ok}
use spox.Exec
use spox.Sbtc.{Script, Sbtc}
use spox.Storage.{MonitoredDeposit, SharedStore, to_script_pubkey, add, new_shared, find}
use spox.Storage.Laws.{or_else, deposit_at, add-deposit_at}
use spox.Clarity.{Value}
use spox.StacksClient.{Http}
use spox.BitcoinNode.{Rpc}
use spox.BitcoinNode.Connecting.{Urls, BitcoinCoreClient, from_config}
use spox.Config.{Settings}
use spox.Context.{Context, wallet_name, registry_of, context_try_from}
use spox.Program.{Outcome, finished, running, started, main}
use spox.Program.Commands.{AddressApi, fails, app_error}
use spox.Program.StartUp.{add_all, monitored_deposits, setup_wallet, start_up}

-- The first deposit of a list that has a script.
abbrev pub first_under :
    {D R : Type 0} → Sbtc D R → Script → List (MonitoredDeposit D R) → Option (MonitoredDeposit D R)
first_under lib k [] = none
first_under lib k (d ∷ ds) = if to_script_pubkey lib d == k then some d else first_under lib k ds

abbrev pub or_first : {A : Type 0} → Option A → Option A → Option A
or_first none o = o
or_first (some a) o = some a

module _ {D R : Type 0} (lib : Sbtc D R) where
  record Adds (ds : List (MonitoredDeposit D R)) (s : SharedStore D R) : Type 0 where
    added : (add_all lib ds s).0 ≡ ok tt
    free : (add_all lib ds s).1.poisoned ≡ false
    same_id : (add_all lib ds s).1.last_next_address_id ≡ s.last_next_address_id
    holds :
        (k : Script)
        → deposit_at (add_all lib ds s).1 k ≡ or_first (deposit_at s k) (first_under lib k ds)

  or_lem : {A : Type 0} (o : Option A) (a : A) → some (or_else o a) ≡ or_first o (some a)
  or_lem none a = refl
  or_lem (some b) a = refl

  first_lem :
      (d : MonitoredDeposit D R) (k : Script) (s : SharedStore D R)
      (rest : Option (MonitoredDeposit D R))
      → or_first
          (if to_script_pubkey lib d == k
            then some (or_else (deposit_at s (to_script_pubkey lib d)) d)
            else deposit_at s k)
          rest
        ≡ or_first (deposit_at s k) (if to_script_pubkey lib d == k then some d else rest)
  first_lem d k s rest = elim (Bool-cases (to_script_pubkey lib d == k)) [
    | inl same ↦ rw same (
        ap (λ j. some (or_else (deposit_at s j) d))
          ((list_beq_iff nat_eq (to_script_pubkey lib d) k).0 same)
        ∙ or_lem (deposit_at s k) d)
    | inr other ↦ rw other
  ]

  or_none : {A : Type 0} (o : Option A) → o ≡ or_first o none
  or_none none = refl
  or_none (some a) = refl

  add_all-Adds :
      (ds : List (MonitoredDeposit D R)) (s : SharedStore D R) → s.poisoned ≡ false → Adds ds s
  unfolding add_all
  add_all-Adds [] s h = record {
    added = refl;
    free = h;
    same_id = refl;
    holds = λ k. or_none (deposit_at s k);
  }
  add_all-Adds (d ∷ ds) s h =
      let (_, stored, id, free) = add-deposit_at lib d s [] h in
      let later = add_all-Adds ds (add lib d s).1 free in
      record {
        added = rw stored later.added;
        free = rw stored later.free;
        same_id = rw stored (later.same_id ∙ id);
        holds = λ k. rw stored (
            later.holds k
            ∙ ap (λ o. or_first o (first_under lib k ds)) (add-deposit_at lib d s k h).0
            ∙ first_lem d k s (first_under lib k ds));
      }

module _ {W D R : Type 0} (lib : Sbtc D R) (addresses : AddressApi)
    (list_with_type : ℕ → List Value → String ⊎ Value) (urls : Urls)
    (check : String → String ⊎ Unit {0}) (http : Http W) (rpc : BitcoinCoreClient → Rpc W) where
  -- A context that was built has the settings, and a new store.
  built_lem :
      (s : Settings) (built : Context D R)
      → context_try_from urls check http s ≡ ok built
      → (built.settings ≡ s) × (built.storage ≡ new_shared)
  unfolding context_try_from
  built_lem s built h =
      let (client, connected, with_client) =
        bind-ok
          (from_config urls check s.bitcoin_rpc_endpoint (wallet_name s.node_wallet)
            s.bitcoin_rpc_timeout)
          _ built h in
      let (registry, registered, made) =
        bind-ok (Result.transpose_map (registry_of http s.stacks) s.registry_contract) _ built
          with_client in
      (sym (ap settings_of made), sym (ap storage_of made))
    where
      settings_of : Result (Context D R) → Settings
      settings_of (ok c) = c.settings
      settings_of (err e) = s

      storage_of : Result (Context D R) → SharedStore D R
      storage_of (ok c) = c.storage
      storage_of (err e) = built.storage

  -- The processes run on a context once its wallet is set up, and an error ends the program.
  abbrev pub running_if : Context D R → Result (Unit {0}) × W → Outcome D R × W
  running_if context (ok ready, w) = (running context, w)
  running_if context (err e, w) = (finished (fails (app_error e)), w)

  set_up_lem :
      (context : Context D R) (r : Result (Unit {0})) (w : W)
      → started lib addresses list_with_type urls check http rpc
          (Exec.◌>>=◌ (λ t. (r, t)) (λ ready. Exec.pure context) w)
        ≡ running_if context (r, w)
  set_up_lem context (ok ready) w = refl
  set_up_lem context (err e) w = refl

  -- If the deposits of the settings can be read and the clients be built, then the program without a
  -- command runs its processes, once the node's wallet is set up, on a context of those settings whose
  -- store holds for each script the first deposit of the settings under it; and a wallet that cannot be
  -- set up ends it with that error.
  pub main-watches :
      (s : Settings) (ds : List (MonitoredDeposit D R)) (built : Context D R) (w : W)
      → monitored_deposits lib s.deposit ≡ ok ds
      → context_try_from urls check http s ≡ ok built
      → (context : Context D R) × (context.settings ≡ s)
        × ((k : Script) → deposit_at context.storage k ≡ first_under lib k ds)
        × (main lib addresses list_with_type urls check http rpc (inr s) none w
            ≡ running_if context (setup_wallet lib urls check http rpc context w))
  unfolding main start_up new_shared find
  main-watches s ds built w monitored made =
      let (same, new) = built_lem s built made in
      let adds = add_all-Adds lib ds built.storage (ap (λ t. t.poisoned) new) in
      let context : Context D R = record built { storage = (add_all lib ds built.storage).1 } in
      (
        context,
        same,
        λ k. adds.holds k ∙ ap (λ t. or_first (deposit_at t k) (first_under lib k ds)) new,
        rw (monitored, made, adds.added) (set_up_lem context _ _),
      )

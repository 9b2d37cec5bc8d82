-- ===== src/Withdrawal/Decoding.antt =====
-- What the decoders of withdrawals accept, and the fields of the keys and items that they build.
use spox.Prelude.{none, ℕ, Option, some, List, map, ◌≡◌, refl, ◌↔◌, arith}
use spox.Principal.{Principal, contract}
use spox.Error.{Result, ok}
use spox.Clarity.{
  Value, u_int, principal, tuple, Fields, lookup, without, of_list, as_list, as_option,
  as_principal, as_uint,
}
use spox.Clarity.Reading.{lookup-without_ne, to_list-of_list}
use spox.Result
use spox.Result.{◌>>=◌, collect-map-ok}
use spox.Claim.{expect_contract}
use spox.Withdrawal.{
  withdrawal_key_new, withdrawal_item_new, item_staker, item_request_id, PendingWithdrawal,
  withdrawal_key, PendingWithdrawalsPage, withdrawal_key_try_from, pending_withdrawal_try_from,
  pending_withdrawals_page_try_from, cursor_arg,
}

-- The fields of a tuple are those of a withdrawal row.
pub record IsRow (m : Fields) (w : PendingWithdrawal) : Type 0 where
  pub staker : Principal
  pub request_id : ℕ
  pub staker_field : lookup "staker" m ≡ some (principal staker)
  pub signer_field : lookup "signer-manager" m ≡ some (principal (contract w.signer_manager))
  pub request_field : lookup "request-id" m ≡ some (u_int request_id)
  pub item : w.item ≡ withdrawal_item_new staker request_id

abbrev row_of : Option Value → Option Value → Option Value → Result PendingWithdrawal
row_of signer staker request = do
  s ← as_principal "signer-manager" signer
  signer_manager ← expect_contract s
  staker ← as_principal "staker" staker
  request_id ← as_uint "request-id" request
  ok (record { signer_manager = signer_manager; item = withdrawal_item_new staker request_id })

pending_withdrawal_try_from-tuple :
    (m : Fields)
    → pending_withdrawal_try_from (tuple m)
      ≡ row_of (lookup "signer-manager" m) (lookup "staker" m) (lookup "request-id" m)
unfolding pending_withdrawal_try_from
pending_withdrawal_try_from-tuple m = ground (
  arith,
  lookup-without_ne "signer-manager" "staker" m refl,
  lookup-without_ne "signer-manager" "request-id" m refl,
  lookup-without_ne "staker" "request-id" (without "signer-manager" m) refl,
)

row_of_sound :
    (signer staker request : Option Value) (w : PendingWithdrawal)
    → row_of signer staker request ≡ ok w
    → (p : Principal) × (n : ℕ) × (staker ≡ some (principal p))
      × (signer ≡ some (principal (contract w.signer_manager)))
      × (request ≡ some (u_int n))
      × (w.item ≡ withdrawal_item_new p n)
row_of_sound (some (principal (contract c))) (some (principal p)) (some (u_int n)) w h =
    (p, n, refl, ground arith, refl, ground arith)
row_of_sound _ _ _ w h = absurd (ground arith)

-- A Clarity tuple decodes to a withdrawal exactly when its fields `staker`, `signer-manager` and
-- `request-id` are well typed and hold what the row and its item are made of.
pub pending_withdrawal_try_from_iff :
    (m : Fields) (w : PendingWithdrawal)
    → (pending_withdrawal_try_from (tuple m) ≡ ok w) ↔ IsRow m w
pending_withdrawal_try_from_iff m w = (
  λ h.
      let (p, n, s, g, r, i) = row_of_sound _ _ _ w (rw pending_withdrawal_try_from-tuple at h) in
      record {
        staker = p;
        request_id = n;
        staker_field = s;
        signer_field = g;
        request_field = r;
        item = i;
      },
  λ h.
      rw (pending_withdrawal_try_from-tuple, h.signer_field, h.staker_field, h.request_field)
        (cc h.item),
)

-- The accessors of an item return what it was built from: their `unreachable!` is never reached.
pub item_accessors :
    (staker : Principal) (request_id : ℕ)
    → (item_staker (withdrawal_item_new staker request_id) ≡ some staker)
      × (item_request_id (withdrawal_item_new staker request_id) ≡ some request_id)
unfolding item_staker item_request_id withdrawal_item_new
item_accessors staker request_id = (refl, refl)

-- Every withdrawal that the decoder returns has a key: its staker, signer manager and request.
pub withdrawal_key-decoded :
    (m : Fields) (w : PendingWithdrawal)
    → pending_withdrawal_try_from (tuple m) ≡ ok w
    → (staker : Principal) × (request_id : ℕ) × (lookup "staker" m ≡ some (principal staker))
      × (lookup "request-id" m ≡ some (u_int request_id))
      × (withdrawal_key w ≡ some (withdrawal_key_new staker (contract w.signer_manager) request_id))
unfolding withdrawal_key withdrawal_item_new
withdrawal_key-decoded m w h =
    let r : IsRow m w = (pending_withdrawal_try_from_iff m w).0 h in
    (r.staker, r.request_id, r.staker_field, r.request_field, ground (arith, r.item))

-- The key that a cursor tuple decodes to is the key whose tuple it is.
pub withdrawal_key_try_from-new :
    (staker signer : Principal) (request_id : ℕ)
    → withdrawal_key_try_from (tuple (withdrawal_key_new staker signer request_id).fields)
      ≡ ok (withdrawal_key_new staker signer request_id)
unfolding withdrawal_key_try_from withdrawal_key_new lookup without
withdrawal_key_try_from-new staker signer request_id = refl

page_with : List PendingWithdrawal → Option Value → Result PendingWithdrawalsPage
page_with withdrawals cursor = do
  c ← as_option "next" cursor
  next ← Result.transpose_map withdrawal_key_try_from c
  ok (record { withdrawals = withdrawals; next = next })

abbrev page_of : Option Value → Option Value → Result PendingWithdrawalsPage
page_of rows cursor = do
  vs ← as_list "rows" rows
  withdrawals ← Result.collect pending_withdrawal_try_from vs
  page_with withdrawals cursor

pending_withdrawals_page_try_from-tuple :
    (m : Fields)
    → pending_withdrawals_page_try_from (tuple m) ≡ page_of (lookup "rows" m) (lookup "next" m)
unfolding pending_withdrawals_page_try_from page_with
pending_withdrawals_page_try_from-tuple m = ground (arith, lookup-without_ne "rows" "next" m refl)

-- A page of rows that decode one by one decodes to their withdrawals in the same order; a cursor of
-- a key decodes to that key.
pub pending_withdrawals_page_try_from-rows :
    (m : Fields) (rows : List Value) (withdrawals : List PendingWithdrawal)
    (staker signer : Principal) (request_id : ℕ)
    → lookup "rows" m ≡ some (Value.list (of_list rows))
    → map pending_withdrawal_try_from rows ≡ map ok withdrawals
    → lookup "next" m ≡ some (cursor_arg (some (withdrawal_key_new staker signer request_id)))
    → pending_withdrawals_page_try_from (tuple m)
      ≡ ok (record {
        withdrawals = withdrawals;
        next = some (withdrawal_key_new staker signer request_id);
      })
unfolding cursor_arg page_with
pending_withdrawals_page_try_from-rows m rows withdrawals staker signer request_id r d c = rw (
  pending_withdrawals_page_try_from-tuple,
  r,
  c,
  to_list-of_list,
  collect-map-ok pending_withdrawal_try_from rows withdrawals d,
  withdrawal_key_try_from-new,
)

pub pending_withdrawals_page_try_from-last :
    (m : Fields) (rows : List Value) (withdrawals : List PendingWithdrawal)
    → lookup "rows" m ≡ some (Value.list (of_list rows))
    → map pending_withdrawal_try_from rows ≡ map ok withdrawals
    → lookup "next" m ≡ some (cursor_arg none)
    → pending_withdrawals_page_try_from (tuple m)
      ≡ ok (record { withdrawals = withdrawals; next = none })
unfolding cursor_arg page_with
pending_withdrawals_page_try_from-last m rows withdrawals r d c = rw (
  pending_withdrawals_page_try_from-tuple,
  r,
  c,
  to_list-of_list,
  collect-map-ok pending_withdrawal_try_from rows withdrawals d,
)

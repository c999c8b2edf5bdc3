-- ===== src/Broker/Link.antt =====
-- How a leader calls a follower (internal/broker/broker.go: `dial` and `dropClient`, and the `Call` of
-- net/rpc). The network is an argument: `dials n` says whether the TCP connection number `n` opens,
-- and `fate n` what becomes of the call number `n`.
use trixps.Prelude.{ℕ, suc, Bool, Option, none, some, if◌then◌else◌, list_eq, nat_eq}
use trixps.Prelude.Int.{ℤ}
use trixps.Prelude.Map.{Map, lookup, insert, delete}
use trixps.Prelude.Text.{Text}
use trixps.Storage.Codec.{Error, Result, ok}
use trixps.Storage.Log.{Log}

-- A call is answered, or is lost on the way, or its answer is lost on the way back.
pub data Fate : Type 0 where
  delivered request_lost reply_lost : Fate

-- Why something is not done.
pub data Failure : Type 0 where
  address_missing dial_failed call_failed not_acknowledged out_of_fuel : Failure
  not_found : ℤ → Failure
  not_leader : ℤ → Text → Failure
  storage : Error → Failure
  refused : Text → Failure → Failure

pub data Outcome {ℓ} (A : Type ℓ) : Type ℓ where
  done : A → Outcome A
  failed : Failure → Outcome A

-- The leader's side of its connections, by address, each with its number, and the follower's log for
-- the partition in question.
pub record Link : Type 0 where
  pub clients : Map Text ℕ
  pub dialed : ℕ
  pub called : ℕ
  pub follower : Log

-- `if err := ...; err != nil { return err }`
abbrev pub if_done {ℓ κ} :
    {A : Type ℓ} {B : Type κ} → Outcome A × Link → (A → Link → Outcome B × Link) → Outcome B × Link
if_done (done a, n) next = next a n
if_done (failed e, n) next = (failed e, n)

-- The connection to an address: the one that is open, or a new one.
unfoldable pub dial : (ℕ → Bool) → Text → Link → Outcome ℕ × Link
dial dials addr n = elim (lookup addr n.clients) [
  | some c ↦ (done c, n)
  | none ↦
      if dials n.dialed
      then (
        done n.dialed,
        record n { clients = insert addr n.dialed n.clients; dialed = suc n.dialed },
      )
      else (failed dial_failed, record n { dialed = suc n.dialed })
]

unfoldable pub drop_client : Text → Link → Link
drop_client addr n = record n { clients = delete addr n.clients }

abbrev pub replied {ℓ} : {R : Type ℓ} → Fate → Result R → Option R
replied delivered (ok r) = some r
replied _ _ = none

abbrev pub served {ℓ} : {R : Type ℓ} → Fate → Result R × Log → Log → Log
served request_lost _ l = l
served _ (_, l') l = l'

-- A call of a handler of the follower; `none` is an error, of the network or of the handler.
unfoldable pub call {ℓ} :
    {R : Type ℓ} → (ℕ → Fate) → (Log → Result R × Log) → Link → Option R × Link
call fate handler n = (
  replied (fate n.called) (handler n.follower).0,
  record n {
    called = suc n.called;
    follower = served (fate n.called) (handler n.follower) n.follower;
  },
)

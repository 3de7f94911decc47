-- ===== src/Secrets/Once.antt =====
-- The exactly-once promise of the store of secrets, over any sequence of its transactions. bbolt
-- runs writers one after the other, so concurrent requests are such a sequence.
use secret_share.Prelude.{
  ℕ, ◌+◌, ◌≤◌, String, Bool, true, Option, none, some, List, [], ◌∷◌, arith, ◌==◌, eq_iff,
  if◌then◌else◌,
}
use secret_share.Bolt.{Engine, Error, raw_at}
use secret_share.Secret.{Secret, Time}
use secret_share.Secrets.Store.{Store, Bytes, create, get_and_burn, remove, delete_expired}
use secret_share.Secrets.Burn.{create_lem, get_and_burn_lem, remove_lem}
use secret_share.Secrets.Sweep.{keep_fresh, delete_expired_lem}

-- A transaction of the store, with the answer of its commit.
pub data Op : Type 0 where
  creates : Option Error → Secret → Op
  peeks : String → Op
  burns removes : Option Error → String → Op
  sweeps : Option Error → Time → Op

-- One where a call gave a secret and no error, else zero.
abbrev given : Option Secret → Option Error → ℕ
given (some sec) none = 1
given _ _ = 0

-- One where a call for the id answered no error, else zero.
abbrev accepted : Bool → Option Error → ℕ
accepted true none = 1
accepted _ _ = 0

-- One where bytes stand under the id, else zero.
abbrev pub present : Option Bytes → ℕ
present none = 0
present (some raw) = 1

module _ (E : Engine) where
  -- The store after a transaction.
  unfoldable pub after_op : Op → Store E → Store E
  after_op (creates c sec) s = (create E c (some sec) s).2
  after_op (peeks id) s = s
  after_op (burns c id) s = (get_and_burn E c id s).2
  after_op (removes c id) s = (remove E c id s).2
  after_op (sweeps c now) s = (delete_expired E c now s).2

  -- How often a transaction hands out the secret with the id to be revealed.
  unfoldable pub burnt : String → Op → Store E → ℕ
  burnt id (burns c k) s = let r = get_and_burn E c k s in if k == id then given r.0 r.1 else 0
  burnt id _ s = 0

  -- How often a transaction stores a secret under the id.
  unfoldable pub stored : String → Op → Store E → ℕ
  stored id (creates c sec) s = let r = create E c (some sec) s in accepted (sec.id == id) r.1
  stored id _ s = 0

  unfoldable pub burnt_in : String → List Op → Store E → ℕ
  burnt_in id [] s = 0
  burnt_in id (op ∷ ops) s = burnt id op s + burnt_in id ops (after_op op s)

  unfoldable pub stored_in : String → List Op → Store E → ℕ
  stored_in id [] s = 0
  stored_in id (op ∷ ops) s = stored id op s + stored_in id ops (after_op op s)

  step_once :
      (id : String) (op : Op) (s : Store E)
      → burnt id op s + present (raw_at E (after_op op s) id)
        ≤ stored id op s + present (raw_at E s id)
  unfolding after_op burnt stored
  step_once id (creates c sec) s = ground (arith, create_lem E c sec id s, eq_iff sec.id id)
  step_once id (peeks k) s = omega arith
  step_once id (burns c k) s = ground (arith, get_and_burn_lem E c k id s, eq_iff k id)
  step_once id (removes c k) s = ground (arith, remove_lem E c k id s)
  step_once id (sweeps c now) s =
      unfold keep_fresh in ground (arith, delete_expired_lem E c now id s)

  -- In any sequence of transactions, whatever their commits answer, the secret under an id is
  -- handed out at most once for each time that one was stored there, and once more if one stood
  -- there at the start.
  pub burnt-le-stored :
      (id : String) (ops : List Op) (s : Store E)
      → burnt_in id ops s ≤ stored_in id ops s + present (raw_at E s id)
  unfolding burnt_in stored_in
  burnt-le-stored id [] s = omega arith
  burnt-le-stored id (op ∷ ops) s =
      omega (arith, step_once id op s, burnt-le-stored id ops (after_op op s))

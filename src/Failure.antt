-- ===== src/Failure.antt =====
-- The errors of the start of the program and of its commands, made by fmt.Errorf and errors.New:
-- kept as the format with its arguments, not as the text.
use secret_share.Prelude.{◌⊎◌, inl, inr, ◌≡◌, refl, String, some, none, Option, List}
use secret_share.Http.{Value}
use secret_share.Bolt.{Error}

pub data Failure : Type 0 where
  errorf : String → List Value → Failure
  -- a format that wraps (%w) the error of a store, of bcrypt or of another call
  wrapping : String → List Value → Failure
  -- the error of the named call, handed on as it is
  raised : String → Failure
  -- the error of a call of the store, handed on within a format
  wrapping_store : String → Error → Failure

-- What a check or a command gives: a value, or its error.
pub data Checked (A : Type 0) : Type 0 where
  passed : A → Checked A
  failing : Failure → Checked A

-- `if err != nil { return err }`
unfoldable pub and_then : {A B : Type 0} → Checked A → (A → Checked B) → Checked B
and_then (passed a) go = go a
and_then (failing e) go = failing e

-- A check that gives no value, in front of the rest.
unfoldable pub unless : {B : Type 0} → Option Failure → Checked B → Checked B
unless none rest = rest
unless (some e) rest = failing e

abbrev pub failure_of : {A : Type 0} → Checked A → Option Failure
failure_of (passed a) = none
failure_of (failing e) = some e

-- A check in front of the rest passes only with a value that the rest passes on.
pub and_then-inv :
    {A B : Type 0} (c : Checked A) (go : A → Checked B) (b : B)
    → and_then c go ≡ passed b
    → (a : A) × (c ≡ passed a) × (go a ≡ passed b)
unfolding and_then
and_then-inv (passed a) go b h = (a, refl, h)
and_then-inv (failing e) go b h = cc

pub unless-inv :
    {B : Type 0} (o : Option Failure) (rest : Checked B) (b : B)
    → unless o rest ≡ passed b
    → (o ≡ none) × (rest ≡ passed b)
unfolding unless
unless-inv none rest b h = (refl, h)
unless-inv (some e) rest b h = cc

pub passed-inj : {A : Type 0} (a b : A) → passed a ≡ passed b → a ≡ b
passed-inj a b h = cc

pub Checked-cases :
    {A : Type 0} (c : Checked A) → ((a : A) × (c ≡ passed a)) ⊎ ((e : Failure) × (c ≡ failing e))
Checked-cases (passed a) = inl (a, refl)
Checked-cases (failing e) = inr (e, refl)

-- `fmt.Errorf("...: %w", err)` around an error.
unfoldable pub wrap : {A : Type 0} → Failure → Checked A → Checked A
wrap e (passed a) = passed a
wrap e (failing inner) = failing e

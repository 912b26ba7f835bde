-- ===== src/Errors.antt =====
-- The exceptions that the modelled code raises, and computations that may raise one.
use h_mesh.Base.{ℕ, ◌≡◌, refl, ap, Bool, true, false, Option, none, some, List, Text}

-- Why core/envelope.py and core/policy.py raise EnvelopeError, with the field concerned.
pub data Reason : Type 0 where
  invalid_name invalid_address unqualified_address : Text → Reason
  bad_identifier bad_counter bad_counter_text : Text → Reason
  no_route bad_kind bad_ts bad_l2 bad_l3 bad_payload bad_version : Reason
  not_utf8 not_ascii not_text short_header bad_json body_not_object : Reason
  hops_exhausted policy_denied : Reason
  invalid_tags : Text → Reason

-- The classes of redis.exceptions that core/service.py tells apart; `response` is the bare
-- ResponseError with its text, `fatal` any other exception of a command.
pub data RedisError : Type 0 where
  busy_loading read_only try_again master_down authentication connection timed_out : RedisError
  response : Text → RedisError
  fatal : RedisError

pub data Category : Type 0 where
  busy loading readonly tryagain masterdown dropped timeout : Category

pub data Exc : Type 0 where
  key_error index_error attribute_error type_error value_error runtime_error unicode_error : Exc
  envelope_error : Reason → Exc
  -- channels.DeadLetter, and any other exception of an opener
  dead_letter opener_failed : Text → Exc
  redis : RedisError → Exc
  -- lifecycle's ProvableLifecycleRejection, _IncompleteLifecycle and _PartialLifecycle, the latter two
  -- with what was acknowledged
  lifecycle_rejected : Exc
  lifecycle_incomplete lifecycle_partial : List Text → Exc
  -- lifecycle.ProvableActualFailure
  actual_failure : Exc
  retry_exhausted : Category → Exc → ℕ → Exc

pub data Result {ℓ} (A : Type ℓ) : Type ℓ where
  ok : A → Result A
  raise : Exc → Result A

-- What follows a call is not run when the call raises.
infixl 5 ◌>>=◌ ◌>>◌
abbrev pub ◌>>=◌ {ℓ κ} : {B : Type ℓ} {C : Type κ} → Result B → (B → Result C) → Result C
raise exc >>= rest = raise exc
ok value >>= rest = rest value

abbrev pub ◌>>◌ {ℓ κ} : {B : Type ℓ} {C : Type κ} → Result B → Result C → Result C
step >> rest = step >>= λ _. rest

-- if not test: raise e
abbrev pub require : Bool → Exc → Result (Unit {0})
require true e = ok tt
require false e = raise e

abbrev pub or_raise {ℓ} : {A : Type ℓ} → Option A → Exc → Result A
or_raise none e = raise e
or_raise (some a) e = ok a

pub ok_eq {ℓ} : {A : Type ℓ} {a b : A} → ok a ≡ ok b → a ≡ b
ok_eq {A} {a} h = ap (λ r. elim r [ ok x ↦ x | raise e ↦ a ]) h

-- A block that returned: its first call returned, and so did the rest.
pub >>=_ok {ℓ κ} :
    {B : Type ℓ} {C : Type κ} (first : Result B) (rest : B → Result C) {c : C}
    → (first >>= rest) ≡ ok c
    → (value : B) × (first ≡ ok value) × (rest value ≡ ok c)
>>=_ok (raise exc) rest returned = cc
>>=_ok (ok value) rest returned = (value, refl, returned)

-- The same, handed on to what follows.
pub >>=_elim {ℓ κ ι} :
    {A : Type ℓ} {B : Type κ} {P : Type ι} (m : Result A) {f : A → Result B} {b : B}
    → (m >>= f) ≡ ok b
    → ((a : A) → m ≡ ok a → f a ≡ ok b → P)
    → P
>>=_elim (ok a) h k = k a refl h
>>=_elim (raise e) h k = absurd (cc h)

pub or_raise_ok {ℓ} :
    {A : Type ℓ} (found : Option A) (e : Exc) {a : A} → or_raise found e ≡ ok a → found ≡ some a
or_raise_ok none e h = absurd (cc h)
or_raise_ok (some a) e h = cc h

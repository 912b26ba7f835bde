-- ===== src/Envelope/Values.antt =====
-- The values of Python that a frame, a tag list or a JSON record holds, and dict.get.
use h_mesh.Base.{ℕ, arith, refl, ◌∙◌, ◌≡◌, Bool, Option, none, some, if◌then◌else◌, Text, ◌=t◌}

-- `negsuc n` is -(n + 1).
pub data ℤ : Type 0 where
  pos : ℕ → ℤ
  negsuc : ℕ → ℤ

-- `real` is a float, by its repr; `dict` has its fields in order.
mutual
  pub data Items : Type 0 where
    nil : Items
    cons : Value → Items → Items

  pub data Fields : Type 0 where
    end : Fields
    field : Text → Value → Fields → Fields

  pub data Value : Type 0 where
    boolean : Bool → Value
    null : Value
    int : ℤ → Value
    real str : Text → Value
    dict : Fields → Value
    array : Items → Value

-- d[key], as `none` where the key is missing
unfoldable pub find : Text → Fields → Option Value
find k end = none
find k (field j v fs) = if j =t k then some v else find k fs

abbrev pub or_null : Option Value → Value
or_null none = null
or_null (some v) = v

-- d.get(key)
unfoldable pub get : Text → Fields → Value
get k fs = or_null (find k fs)

-- {**a, **b}: the fields of b come first, so that they are found first.
unfoldable pub merge : Fields → Fields → Fields
merge a end = a
merge a (field k v b) = field k v (merge a b)

pub find-merge :
    (k : Text) (a b : Fields)
    → find k (merge a b) ≡ (elim (find k b) [ none ↦ find k a | some v ↦ some v ])
unfolding find merge
find-merge k a end = refl
find-merge k a (field j v b) = ground (arith, find-merge k a b)

pub find-merge-some :
    (k : Text) (a b : Fields) (v : Value) → find k b ≡ some v → find k (merge a b) ≡ some v
find-merge-some k a b v h = find-merge k a b ∙ rw h

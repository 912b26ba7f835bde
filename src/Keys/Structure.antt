-- ===== src/Keys/Structure.antt =====
-- The structure of a key: its parts can be read back, so distinct arguments give distinct keys.
use h_mesh.Base.{
  ◌≡◌, subst, sym, ◌∙◌, true, Option, none, some, List, [], ◌∷◌, ◌++◌, arith, all, all-append, Text,
  codes, split, join, split-join, lacks,
}
use h_mesh.Errors.{ok, >>=_ok}
use h_mesh.Keys.{
  validate_segment, validate_resource, agent_parts, resource_parts, prefix_parts, prefix,
}
use h_mesh.Keys.Segments.{valid_text-lacks_colon, validate_segment-ok, validate_resource-ok}

abbrev agent_list : Option Text → List Text
agent_list none = []
agent_list (some a) = codes "agent" ∷ a ∷ []

abbrev resource_list : Option Text → List Text
resource_list none = []
resource_list (some v) = v ∷ []

-- The parts of a key, with nothing validated.
abbrev pub key_parts : Text → Text → Option Text → Option Text → List Text
key_parts pod tenant agent resource =
    codes "pod" ∷ pod ∷ codes "tenant" ∷ tenant ∷ (agent_list agent ++ resource_list resource)

agent_parts-ok :
    (a : Option Text) {ps : List Text}
    → agent_parts a ≡ ok ps
    → (all (lacks b':') ps ≡ true) × (ps ≡ agent_list a)
unfolding agent_parts
agent_parts-ok none h = ground arith
agent_parts-ok (some a) h =
    let (a', ha, e) = >>=_ok (validate_segment (some a)) _ h in
    let (checked, same) = validate_segment-ok ha in ground (arith, valid_text-lacks_colon a checked)

resource_parts-ok :
    (v : Option Text) {ps : List Text}
    → resource_parts v ≡ ok ps
    → (all (lacks b':') ps ≡ true) × (ps ≡ resource_list v)
unfolding resource_parts
resource_parts-ok none h = ground arith
resource_parts-ok (some v) h =
    let (v', hv, e) = >>=_ok (validate_resource v) _ h in
    let checked = validate_resource-ok hv in ground (arith, checked)

prefix_parts-ok :
    (p t : Text) (a v : Option Text) {ps : List Text}
    → prefix_parts p t a v ≡ ok ps
    → (all (lacks b':') ps ≡ true) × (ps ≡ key_parts p t a v)
unfolding prefix_parts
prefix_parts-ok p t a v h =
    let (p', hp, h₁) = >>=_ok (validate_segment (some p)) _ h in
    let (t', ht, h₂) = >>=_ok (validate_segment (some t)) _ h₁ in
    let (ags, ha, h₃) = >>=_ok (agent_parts a) _ h₂ in
    let (vs, hv, h₄) = >>=_ok (resource_parts v) _ h₃ in
    let (p_fine, p_same) = validate_segment-ok hp in
    let (t_fine, t_same) = validate_segment-ok ht in
    let (a_fine, a_same) = agent_parts-ok a ha in
    let (v_fine, v_same) = resource_parts-ok v hv in
    let clean = valid_text-lacks_colon p p_fine in
    let clean' = valid_text-lacks_colon t t_fine in
    ground (arith, clean, clean', all-append (lacks b':') (agent_list a) (resource_list v))

-- A key splits on ":" into the parts it was built from.
pub split-prefix :
    (p t : Text) (a v : Option Text) {k : Text}
    → prefix p t a v ≡ ok k
    → split b':' k ≡ key_parts p t a v
unfolding prefix
split-prefix p t a v {k} h =
    let (ps, built, e) = >>=_ok (prefix_parts p t a v) _ h in
    let (clean, same) = prefix_parts-ok p t a v built in
    let whole : all (lacks b':') (key_parts p t a v) ≡ true =
      subst (λ r. all (lacks b':') r ≡ true) same clean in
    let key : join b':' (key_parts p t a v) ≡ k = cc (same, e) in
    rw (← key) (split-join b':' (codes "pod") _ whole)

key_parts-injective :
    (p t p' t' : Text) (a v a' v' : Option Text)
    → key_parts p t a v ≡ key_parts p' t' a' v'
    → (p ≡ p') × (t ≡ t') × (a ≡ a') × (v ≡ v')
key_parts-injective p t p' t' none none none none e = ground arith
key_parts-injective p t p' t' (some a) (some v) (some a') (some v') e = ground arith
key_parts-injective p t p' t' a v a' v' e = ground arith

-- Two calls of prefix that both return give one key only if every argument is the same: no pod,
-- tenant, agent or resource can name a key of another.
pub prefix-injective :
    (p t p' t' : Text) (a v a' v' : Option Text) {k : Text}
    → prefix p t a v ≡ ok k
    → prefix p' t' a' v' ≡ ok k
    → (p ≡ p') × (t ≡ t') × (a ≡ a') × (v ≡ v')
prefix-injective p t p' t' a v a' v' h h' =
    key_parts-injective p t p' t' a v a' v'
      (sym (split-prefix p t a v h) ∙ split-prefix p' t' a' v' h')

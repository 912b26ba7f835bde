-- ===== src/Redis.antt =====
-- What the modelled code relies on of Redis: lists and hashes under text keys, and commands that an
-- outside fault may refuse or interrupt. The server itself is the parameter `Redis`.

pub mod World
pub mod Memory
pub mod Keeps
pub mod Triples
use h_mesh.Base.{◌≡◌, Bool, Option, none, List, [], ◌∷◌, ◌++◌, drop, if◌then◌else◌, Text, ◌=t◌}
use h_mesh.Envelope.Header.{Raw}

-- LRANGE key 0 -1 (`items`, empty for a missing key), HGETALL (`entries`), GET (`value`) and whether
-- TYPE is list or none (`list_or_none`), or stream or none; XRANGE key - + (`stream`, each entry with its
-- id and fields) and ZRANGE key 0 -1 of a set whose scores are all 0 (`ranked`); RPUSH and LPOP; and the other writes to one key by what they
-- leave under it: a list (`put_items`), a hash (`put_entries`), a string or nothing (`put_value`), a
-- sorted set (`put_ranked`); and DEL. The laws say what each write does to every key.
pub record Redis : Type 1 where
  pub Db : Type 0
  pub items : Db → Text → List Raw
  pub entries : Db → Text → List (Text × Text)
  pub value : Db → Text → Option Text
  pub list_or_none : Db → Text → Bool
  pub stream_or_none : Db → Text → Bool
  pub stream : Db → Text → List (Text × List (Text × Text))
  pub ranked : Db → Text → List Text
  pub rpush : Db → Text → Raw → Db
  pub lpop : Db → Text → Db
  pub put_items : Db → Text → List Raw → Db
  pub put_entries : Db → Text → List (Text × Text) → Db
  pub put_value : Db → Text → Option Text → Db
  pub put_ranked : Db → Text → List Text → Db
  pub delete : Db → Text → Db
  pub items-rpush :
      (d : Db) (k : Text) (v : Raw) (j : Text)
      → items (rpush d k v) j ≡ (if k =t j then items d j ++ (v ∷ []) else items d j)
  pub items-lpop :
      (d : Db) (k j : Text)
      → items (lpop d k) j ≡ (if k =t j then drop 1 (items d j) else items d j)
  pub entries-rpush :
      (d : Db) (k : Text) (v : Raw) (j : Text) → entries (rpush d k v) j ≡ entries d j
  pub entries-lpop : (d : Db) (k j : Text) → entries (lpop d k) j ≡ entries d j
  pub value-rpush : (d : Db) (k : Text) (v : Raw) (j : Text) → value (rpush d k v) j ≡ value d j
  pub items-put_items :
      (d : Db) (k : Text) (xs : List Raw) (j : Text)
      → items (put_items d k xs) j ≡ (if k =t j then xs else items d j)
  pub entries-put_items :
      (d : Db) (k : Text) (xs : List Raw) (j : Text) → entries (put_items d k xs) j ≡ entries d j
  pub value-put_items :
      (d : Db) (k : Text) (xs : List Raw) (j : Text) → value (put_items d k xs) j ≡ value d j
  pub items-put_entries :
      (d : Db) (k : Text) (ps : List (Text × Text)) (j : Text)
      → items (put_entries d k ps) j ≡ items d j
  pub entries-put_entries :
      (d : Db) (k : Text) (ps : List (Text × Text)) (j : Text)
      → entries (put_entries d k ps) j ≡ (if k =t j then ps else entries d j)
  pub value-put_entries :
      (d : Db) (k : Text) (ps : List (Text × Text)) (j : Text)
      → value (put_entries d k ps) j ≡ value d j
  pub items-put_value :
      (d : Db) (k : Text) (v : Option Text) (j : Text)
      → items (put_value d k v) j ≡ (if k =t j then [] else items d j)
  pub value-put_value :
      (d : Db) (k : Text) (v : Option Text) (j : Text)
      → value (put_value d k v) j ≡ (if k =t j then v else value d j)
  pub items-delete :
      (d : Db) (k j : Text) → items (delete d k) j ≡ (if k =t j then [] else items d j)
  pub entries-delete :
      (d : Db) (k j : Text) → entries (delete d k) j ≡ (if k =t j then [] else entries d j)
  pub value-delete :
      (d : Db) (k j : Text) → value (delete d k) j ≡ (if k =t j then none else value d j)
  pub stream-delete :
      (d : Db) (k j : Text) → stream (delete d k) j ≡ (if k =t j then [] else stream d j)
  pub ranked-put_ranked :
      (d : Db) (k : Text) (xs : List Text) (j : Text)
      → ranked (put_ranked d k xs) j ≡ (if k =t j then xs else ranked d j)
  pub items-put_ranked :
      (d : Db) (k : Text) (xs : List Text) (j : Text) → items (put_ranked d k xs) j ≡ items d j
  pub entries-put_ranked :
      (d : Db) (k : Text) (xs : List Text) (j : Text) → entries (put_ranked d k xs) j ≡ entries d j
  pub value-put_ranked :
      (d : Db) (k : Text) (xs : List Text) (j : Text) → value (put_ranked d k xs) j ≡ value d j
  pub ranked-rpush : (d : Db) (k : Text) (v : Raw) (j : Text) → ranked (rpush d k v) j ≡ ranked d j
  pub ranked-put_entries :
      (d : Db) (k : Text) (ps : List (Text × Text)) (j : Text)
      → ranked (put_entries d k ps) j ≡ ranked d j
  -- SET and DEL take a key of every type.
  pub entries-put_value :
      (d : Db) (k : Text) (v : Option Text) (j : Text)
      → entries (put_value d k v) j ≡ (if k =t j then [] else entries d j)
  pub ranked-put_value :
      (d : Db) (k : Text) (v : Option Text) (j : Text)
      → ranked (put_value d k v) j ≡ (if k =t j then [] else ranked d j)

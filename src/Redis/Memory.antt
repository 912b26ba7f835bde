-- ===== src/Redis/Memory.antt =====
-- A Redis of functions from keys to lists, hashes and strings, on which the tests run.
use h_mesh.Base.{refl, true, Option, none, List, [], ◌∷◌, ◌++◌, drop, if◌then◌else◌, Text, ◌=t◌}
use h_mesh.Envelope.Header.{Raw}
use h_mesh.Redis.{Redis}

pub record Tables : Type 0 where
  pub lists : Text → List Raw
  pub hashes : Text → List (Text × Text)
  pub strings : Text → Option Text
  pub streams : Text → List (Text × List (Text × Text))
  pub sorted : Text → List Text

-- No key of it ever holds another type than list where a list is asked for.
abbrev pub memory : Redis
memory = record {
  Db = Tables;
  items = λ d. d.lists;
  entries = λ d. d.hashes;
  value = λ d. d.strings;
  list_or_none = λ d k. true;
  stream_or_none = λ d k. true;
  stream = λ d. d.streams;
  ranked = λ d. d.sorted;
  rpush = λ d k v. record d { lists = λ j. if k =t j then d.lists j ++ (v ∷ []) else d.lists j };
  lpop = λ d k. record d { lists = λ j. if k =t j then drop 1 (d.lists j) else d.lists j };
  put_items = λ d k xs. record d { lists = λ j. if k =t j then xs else d.lists j };
  put_entries = λ d k ps. record d { hashes = λ j. if k =t j then ps else d.hashes j };
  put_value = λ d k v. record d {
    lists = λ j. if k =t j then [] else d.lists j;
    hashes = λ j. if k =t j then [] else d.hashes j;
    strings = λ j. if k =t j then v else d.strings j;
    sorted = λ j. if k =t j then [] else d.sorted j;
  };
  put_ranked = λ d k xs. record d { sorted = λ j. if k =t j then xs else d.sorted j };
  delete = λ d k. record {
    lists = λ j. if k =t j then [] else d.lists j;
    hashes = λ j. if k =t j then [] else d.hashes j;
    strings = λ j. if k =t j then none else d.strings j;
    streams = λ j. if k =t j then [] else d.streams j;
    sorted = λ j. if k =t j then [] else d.sorted j;
  };
  items-rpush = λ d k v j. refl;
  items-lpop = λ d k j. refl;
  entries-rpush = λ d k v j. refl;
  entries-lpop = λ d k j. refl;
  value-rpush = λ d k v j. refl;
  items-put_items = λ d k xs j. refl;
  entries-put_items = λ d k xs j. refl;
  value-put_items = λ d k xs j. refl;
  items-put_entries = λ d k ps j. refl;
  entries-put_entries = λ d k ps j. refl;
  value-put_entries = λ d k ps j. refl;
  items-put_value = λ d k v j. refl;
  value-put_value = λ d k v j. refl;
  items-delete = λ d k j. refl;
  entries-delete = λ d k j. refl;
  value-delete = λ d k j. refl;
  stream-delete = λ d k j. refl;
  ranked-put_ranked = λ d k xs j. refl;
  items-put_ranked = λ d k xs j. refl;
  entries-put_ranked = λ d k xs j. refl;
  value-put_ranked = λ d k xs j. refl;
  ranked-rpush = λ d k v j. refl;
  ranked-put_entries = λ d k ps j. refl;
  entries-put_value = λ d k v j. refl;
  ranked-put_value = λ d k v j. refl;
}

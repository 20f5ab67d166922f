-- ===== src/Db.antt =====
-- db.go: commands and the key-value database that replicas execute them on. The printed and hashed
-- forms of a command are not modelled. A key, like an identity or a command number, is only
-- compared, so it is any number.
pub mod View
pub mod Conflict
pub mod Equal
mod Tests
use pigpaxos.Prelude.{
  ℕ, ◌+◌, List, [], ◌∷◌, ◌++◌, Option, none, some, Bool, true, false, not, ◌&&◌, ◌||◌, ◌==◌,
  if◌then◌else◌,
}
use pigpaxos.Prelude.Assoc.{lookup, insert}

-- `Value`: a byte slice; `none` is nil.
abbrev pub Value : Type 0
Value = Option (List ℕ)

-- `Command`
pub record Command : Type 0 where
  pub key : ℕ
  pub value : Value
  pub client_id : ℕ
  pub command_id : ℕ

abbrev pub is_nil : Value → Bool
is_nil none = true
is_nil (some _) = false

-- `(c Command) Empty`
pub is_empty : Command → Bool
is_empty c =
    if c.key == 0 && is_nil c.value && c.client_id == 0 && c.command_id == 0 then true else false

-- `(c Command) IsRead`
unfoldable pub is_read : Command → Bool
is_read c = is_nil c.value

-- `(c Command) IsWrite`
pub is_write : Command → Bool
is_write c = not (is_nil c.value)

-- `bytes.Equal`, for which a nil slice is an empty one
unfoldable pub equal_bytes : List ℕ → List ℕ → Bool
equal_bytes [] [] = true
equal_bytes (x ∷ xs) (y ∷ ys) = x == y && equal_bytes xs ys
equal_bytes _ _ = false

abbrev pub bytes : Value → List ℕ
bytes none = []
bytes (some v) = v

-- `(c Command) Equal`
unfoldable pub equal : Command → Command → Bool
unfolding equal_bytes
equal c a =
    c.key == a.key
    && equal_bytes (bytes c.value) (bytes a.value)
    && c.client_id == a.client_id
    && c.command_id == a.command_id

-- `database`
pub record Database : Type 0 where
  pub data_of : List (ℕ × List ℕ)
  pub version : ℕ
  pub multiversion : Bool
  pub history_of : List (ℕ × List (List ℕ))

-- `NewDatabase`
abbrev pub new_database : Bool → Database
new_database multiversion = record {
  data_of = [];
  version = 0;
  multiversion = multiversion;
  history_of = [];
}

-- `Get`
unfoldable pub get : Database → ℕ → Value
unfolding lookup
get d k = lookup k d.data_of

-- `History`; a missing key has the nil history
unfoldable pub history : Database → ℕ → List (List ℕ)
unfolding lookup
history d k = elim (lookup k d.history_of) [ none ↦ [] | some vs ↦ vs ]

-- `put`, and `Put` under the lock
unfoldable pub put : Database → ℕ → Value → Database
unfolding insert history
put d k none = d
put d k (some v) = record d {
  data_of = insert k v d.data_of;
  version = d.version + 1;
  history_of =
      if d.multiversion then insert k (history d k ++ v ∷ []) d.history_of else d.history_of;
}

-- `Execute`
unfoldable pub execute : Database → Command → Value × Database
unfolding put get
execute d c = let v = get d c.key in (v, put d c.key c.value)

-- The commands of a log in order, with their results.
unfoldable pub run : Database → List Command → List Value × Database
unfolding execute
run d [] = ([], d)
run d (c ∷ cs) = let (v, d') = execute d c in let (vs, last) = run d' cs in (v ∷ vs, last)

-- `Conflict`
unfoldable pub conflict : Command → Command → Bool
conflict gamma delta =
    if gamma.key == delta.key
    then (if not (is_read gamma) || not (is_read delta) then true else false)
    else false

conflict_row : Command → List Command → Bool
conflict_row c [] = false
conflict_row c (d ∷ ds) = if conflict c d then true else conflict_row c ds

-- `ConflictBatch`
unfoldable pub conflict_batch : List Command → List Command → Bool
unfolding conflict_row conflict is_read
conflict_batch [] ds = false
conflict_batch (c ∷ cs) ds = if conflict_row c ds then true else conflict_batch cs ds

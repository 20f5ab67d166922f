-- ===== src/Db/View.antt =====
-- What a client can read of a database, and what commands do to it.
use pigpaxos.Prelude.{
  ℕ, ◌+◌, ◌≡◌, refl, List, [], ◌∷◌, ◌++◌, none, some, ◌==◌, arith, if◌then◌else◌, inl, inr,
  Option-cases,
}
use mathlib.Core.List.{append-nil, append_assoc}
use pigpaxos.Prelude.Assoc.{lookup-insert}
use pigpaxos.Db.{Value, Command, Database, get, history, put, execute, run, is_nil}

-- `Put` of a value changes what is read at its key only; `Put` of nil changes nothing.
pub get-put :
    (d : Database) (k j : ℕ) (v : Value)
    → get (put d k v) j ≡ (if is_nil v then get d j else if k == j then v else get d j)
unfolding get put
get-put d k j none = refl
get-put d k j (some v) = ground (arith, lookup-insert k j v d.data_of)

pub history-put :
    (d : Database) (k j : ℕ) (v : List ℕ)
    → history (put d k (some v)) j ≡ (
        if d.multiversion
        then (if k == j then history d k ++ v ∷ [] else history d j)
        else history d j)
unfolding put history
history-put d k j v = ground (arith, lookup-insert k j (history d k ++ v ∷ []) d.history_of)

pub version-put :
    (d : Database) (k : ℕ) (v : Value)
    → (put d k v).version ≡ (if is_nil v then d.version else d.version + 1)
unfolding put
version-put d k none = refl
version-put d k (some v) = refl

pub multiversion-put :
    (d : Database) (k : ℕ) (v : Value) → (put d k v).multiversion ≡ d.multiversion
unfolding put
multiversion-put d k none = refl
multiversion-put d k (some v) = refl

-- The values that a list of commands writes to a key, in order.
unfoldable pub writes : ℕ → List Command → List (List ℕ)
writes k [] = []
writes k (c ∷ cs) = elim c.value [
  | none ↦ writes k cs
  | some v ↦ let rest = writes k cs in if c.key == k then v ∷ rest else rest
]

-- How many of the commands are writes.
unfoldable pub write_count : List Command → ℕ
write_count [] = 0
write_count (c ∷ cs) = (if is_nil c.value then 0 else 1) + write_count cs

-- The last value of a list, or the default.
unfoldable pub last_or : Value → List (List ℕ) → Value
last_or v [] = v
last_or v (x ∷ xs) = last_or (some x) xs

get-run :
    (d : Database) (cs : List Command) (k : ℕ)
    → get (run d cs).1 k ≡ last_or (get d k) (writes k cs)
unfolding run execute writes last_or
get-run d [] k = refl
get-run d (c ∷ cs) k = ground (arith, get-run (put d c.key c.value) cs k, get-put d c.key k c.value)

version-run : (d : Database) (cs : List Command) → (run d cs).1.version ≡ d.version + write_count cs
unfolding run execute write_count
version-run d [] = omega arith
version-run d (c ∷ cs) =
    ground (arith, version-run (put d c.key c.value) cs, version-put d c.key c.value)

history-run :
    (d : Database) (cs : List Command) (k : ℕ)
    → history (run d cs).1 k ≡ (if d.multiversion then history d k ++ writes k cs else history d k)
unfolding run execute writes
history-run d [] k = rw append-nil (ground arith)
history-run d (c ∷ cs) k = elim (Option-cases c.value) [
  | inl read ↦ rw read (history-run d cs k)
  | inr (v, write) ↦ rw write (
      ground (
        arith,
        history-run (put d c.key (some v)) cs k,
        multiversion-put d c.key (some v),
        history-put d c.key k v,
        append_assoc (history d k) (v ∷ []) (writes k cs),
      ))
]

-- After any commands a key holds the last value written to it and the version has grown by the
-- number of writes. The history of the key has grown by all values written to it, in order, if the
-- database is multi-version, and is as it was if it is not.
pub run_lem :
    (d : Database) (cs : List Command) (k : ℕ)
    → (get (run d cs).1 k ≡ last_or (get d k) (writes k cs))
      × ((run d cs).1.version ≡ d.version + write_count cs)
      × (history (run d cs).1 k
          ≡ (if d.multiversion then history d k ++ writes k cs else history d k))
run_lem d cs k = (get-run d cs k, version-run d cs, history-run d cs k)

-- ===== src/Db/Conflict.antt =====
-- Commands that do not conflict commute.
use pigpaxos.Prelude.{
  ℕ, ◌≡◌, refl, sym, ◌∙◌, List, [], ◌∷◌, none, some, false, ◌==◌, arith, not, ◌&&◌, ap₂,
}
use pigpaxos.Db.{
  Value, Command, Database, get, history, put, execute, run, is_nil, is_read, conflict,
  conflict_row, conflict_batch,
}
use pigpaxos.Db.View.{get-put, history-put, version-put, multiversion-put}

-- Two databases that no reader can tell apart.
pub record SameView (a b : Database) : Type 0 where
  pub gets : (k : ℕ) → get a k ≡ get b k
  pub histories : (k : ℕ) → history a k ≡ history b k
  pub versions : a.version ≡ b.version
  pub modes : a.multiversion ≡ b.multiversion

pub SameView-refl : (a : Database) → SameView a a
SameView-refl a = record { gets = λ k. refl; histories = λ k. refl; versions = refl; modes = refl }

pub SameView-trans : {a b c : Database} → SameView a b → SameView b c → SameView a c
SameView-trans s t = record {
  gets = λ k. s.gets k ∙ t.gets k;
  histories = λ k. s.histories k ∙ t.histories k;
  versions = s.versions ∙ t.versions;
  modes = s.modes ∙ t.modes;
}

SameView-put :
    (a b : Database) (k : ℕ) (v : Value) → SameView a b → SameView (put a k v) (put b k v)
SameView-put a b k none s = unfold put in s
SameView-put a b k (some v) s = record {
  gets = λ j. ground (arith, get-put a k j (some v), get-put b k j (some v), s.gets j);
  histories = λ j.
      ground
        (arith, history-put a k j v, history-put b k j v, s.histories j, s.histories k, s.modes);
  versions = ground (arith, version-put a k (some v), version-put b k (some v), s.versions);
  modes = ground (arith, multiversion-put a k (some v), multiversion-put b k (some v), s.modes);
}

pub run-SameView :
    (a b : Database) (cs : List Command)
    → SameView a b
    → ((run a cs).0 ≡ (run b cs).0) × SameView (run a cs).1 (run b cs).1
unfolding run execute
run-SameView a b [] s = (refl, s)
run-SameView a b (c ∷ cs) s =
    let (replies, view) =
      run-SameView (put a c.key c.value) (put b c.key c.value) cs
        (SameView-put a b c.key c.value s) in
    (ap₂ ◌∷◌ (s.gets c.key) replies, view)

put_comm :
    (d : Database) (k j : ℕ) (v w : Value)
    → (k == j) && not (is_nil v && is_nil w) ≡ false
    → SameView (put (put d k v) j w) (put (put d j w) k v)
put_comm d k j none w h = unfold put in SameView-refl (put d j w)
put_comm d k j (some v) none h = unfold put in SameView-refl (put d k (some v))
put_comm d k j (some v) (some w) h = record {
  gets = λ i. ground (
    arith,
    get-put (put d k (some v)) j i (some w),
    get-put (put d j (some w)) k i (some v),
    get-put d k i (some v),
    get-put d j i (some w),
  );
  histories = λ i. ground (
    arith,
    history-put (put d k (some v)) j i w,
    history-put (put d j (some w)) k i v,
    history-put d k i v,
    history-put d j i w,
    history-put d k j v,
    history-put d j k w,
    multiversion-put d k (some v),
    multiversion-put d j (some w),
  );
  versions = ground (
    arith,
    version-put (put d k (some v)) j (some w),
    version-put (put d j (some w)) k (some v),
    version-put d k (some v),
    version-put d j (some w),
  );
  modes = ground (
    arith,
    multiversion-put (put d k (some v)) j (some w),
    multiversion-put (put d j (some w)) k (some v),
    multiversion-put d k (some v),
    multiversion-put d j (some w),
  );
}

-- A command may be moved past a batch with which it does not conflict.
execute_past_batch :
    (d : Database) (c : Command) (es : List Command)
    → conflict_row c es ≡ false
    → ((run (put d c.key c.value) es).0 ≡ (run d es).0)
      × (get (run d es).1 c.key ≡ get d c.key)
      × SameView (run (put d c.key c.value) es).1 (put (run d es).1 c.key c.value)
unfolding conflict_row run execute
execute_past_batch d c [] h = (refl, refl, SameView-refl (put d c.key c.value))
execute_past_batch d c (e ∷ es) h =
    let apart : conflict c e ≡ false = ground arith in
    let (replies, kept, view) = execute_past_batch (put d e.key e.value) c es (ground arith) in
    let (replies', view') =
      run-SameView (put (put d c.key c.value) e.key e.value)
        (put (put d e.key e.value) c.key c.value) es
        (put_comm d c.key e.key c.value e.value (unfold conflict is_read in ground arith)) in
    (
      ap₂ ◌∷◌ (unfold conflict is_read in ground (arith, get-put d c.key e.key c.value, apart))
          (replies' ∙ replies),
      kept ∙ (unfold conflict is_read in ground (arith, get-put d e.key c.key e.value, apart)),
      SameView-trans view' view,
    )

-- Two batches that `ConflictBatch` finds free of conflicts commute: whichever runs first, both give
-- the same results, and no reader can tell the databases apart.
pub batches_commute :
    (d : Database) (cs es : List Command)
    → conflict_batch cs es ≡ false
    → ((run (run d cs).1 es).0 ≡ (run d es).0)
      × ((run (run d es).1 cs).0 ≡ (run d cs).0)
      × SameView (run (run d cs).1 es).1 (run (run d es).1 cs).1
unfolding conflict_batch run execute
batches_commute d [] es h = (refl, refl, SameView-refl (run d es).1)
batches_commute d (c ∷ cs) es h =
    let (after, kept, view) = execute_past_batch d c es (ground arith) in
    let (es_results, cs_results, last) =
      batches_commute (put d c.key c.value) cs es (ground arith) in
    let (same, view') =
      run-SameView (run (put d c.key c.value) es).1 (put (run d es).1 c.key c.value) cs view in
    (es_results ∙ after, ap₂ ◌∷◌ kept (sym same ∙ cs_results), SameView-trans last view')

-- ===== src/Config/Tally.antt =====
-- A map from zones to numbers that counts the identities of a list zone by zone.
use pigpaxos.Prelude.{
  ℕ, ◌≡◌, refl, List, [], ◌∷◌, Bool, arith, ltb, ◌==◌, contains, IsNodup, count_if,
}
use pigpaxos.Prelude.Assoc.{
  keys, value_at, increment, value_at-nil, value_at-increment, keys-increment, increment-IsNodup,
}
use pigpaxos.Id.{zone_of}

abbrev pub in_zone : ℕ → ℕ → Bool
in_zone z id = zone_of id == z

pub record IsTally (ids : List ℕ) (m : List (ℕ × ℕ)) : Type 0 where
  pub values : (z : ℕ) → value_at z m ≡ count_if (in_zone z) ids
  pub present : (z : ℕ) → contains (keys m) z ≡ ltb 0 (count_if (in_zone z) ids)
  pub distinct : IsNodup (keys m)

pub IsTally-nil : IsTally [] []
IsTally-nil = record { values = λ z. value_at-nil z; present = λ z. refl; distinct = tt }

pub IsTally-increment :
    (id : ℕ) (ids : List ℕ) (m : List (ℕ × ℕ))
    → IsTally ids m
    → IsTally (id ∷ ids) (increment (zone_of id) m)
IsTally-increment id ids m t = record {
  values = λ z. ground (arith, value_at-increment (zone_of id) z m, t.values z);
  present = λ z. rw keys-increment (ground (arith, t.present z));
  distinct = increment-IsNodup (zone_of id) m t.distinct;
}

-- Which list was counted does not matter, only how often each zone occurs in it.
pub IsTally-counts :
    (xs ys : List ℕ) (m : List (ℕ × ℕ))
    → ((z : ℕ) → count_if (in_zone z) xs ≡ count_if (in_zone z) ys)
    → IsTally xs m
    → IsTally ys m
IsTally-counts xs ys m h t = record {
  values = λ z. ground (arith, t.values z, h z);
  present = λ z. ground (arith, t.present z, h z);
  distinct = t.distinct;
}

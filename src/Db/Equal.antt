-- ===== src/Db/Equal.antt =====
-- What `Command.Equal` compares.
use pigpaxos.Prelude.{ℕ, ◌≡◌, refl, ◌↔◌, List, [], ◌∷◌, true, arith, ==→eq}
use pigpaxos.Db.{Command, bytes, equal_bytes, equal}

equal_bytes_sound : (xs ys : List ℕ) → equal_bytes xs ys ≡ true → xs ≡ ys
unfolding equal_bytes
equal_bytes_sound [] [] h = refl
equal_bytes_sound [] (y ∷ ys) h = cc
equal_bytes_sound (x ∷ xs) [] h = cc
equal_bytes_sound (x ∷ xs) (y ∷ ys) h = ground (arith, equal_bytes_sound xs ys, ==→eq x y)

equal_bytes_refl : (xs : List ℕ) → equal_bytes xs xs ≡ true
unfolding equal_bytes
equal_bytes_refl [] = refl
equal_bytes_refl (x ∷ xs) = ground (arith, equal_bytes_refl xs)

pub equal_bytes_iff : (xs ys : List ℕ) → (equal_bytes xs ys ≡ true) ↔ (xs ≡ ys)
equal_bytes_iff xs ys = (equal_bytes_sound xs ys, λ e. rw (← e) (equal_bytes_refl xs))

-- `Equal` holds exactly when the two commands have the same key, client and command number and the
-- same bytes, a nil value being no bytes.
pub equal_iff :
    (c a : Command)
    → (equal c a ≡ true) ↔ (
        (c.key ≡ a.key)
        × (bytes c.value ≡ bytes a.value)
        × (c.client_id ≡ a.client_id)
        × (c.command_id ≡ a.command_id))
unfolding equal
equal_iff c a = let iff = equal_bytes_iff (bytes c.value) (bytes a.value) in ground (arith, iff)

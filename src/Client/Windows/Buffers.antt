-- ===== src/Client/Windows/Buffers.antt =====
-- Laws of the map of windows at hand and of the windows on their way.
use mathlib.Core.List.{Memᴰ}
use anzdrop.Base.{
  ℕ, suc, ◌≤◌, ◌<◌, true, false, ◌≡◌, ◌≢◌, refl, sym, ◌∙◌, inl, inr, none, some, List, [], ◌∷◌,
  ◌==◌, ==_iff, length, if◌then◌else◌, arith, Bool-cases,
}
use anzdrop.Crypto.Bytes.{Bytes}
use anzdrop.Client.Windows.{delete_window, set_window, get_window, end_fetch}

pub length-delete :
    (i : ℕ) (buffers : List (ℕ × Bytes)) → length (delete_window i buffers) ≤ length buffers
unfolding delete_window
length-delete i [] = omega arith
length-delete i (entry ∷ buffers) = ground (arith, length-delete i buffers)

pub length-delete_found :
    (i : ℕ) (buffers : List (ℕ × Bytes)) (b : Bytes)
    → get_window i buffers ≡ some b
    → length (delete_window i buffers) < length buffers
unfolding delete_window get_window
length-delete_found i [] b h = absurd (cc (h))
length-delete_found i ((j, bytes) ∷ buffers) b h = elim (Bool-cases (j == i)) [
  | inl e ↦ rw (e, if◌then◌else◌) (omega (arith, length-delete i buffers))
  | inr e ↦
      rw (e, if◌then◌else◌)
        (omega (arith, length-delete_found i buffers b (rw (e, if◌then◌else◌) at h)))
]

pub get-delete_ne :
    (i j : ℕ) (buffers : List (ℕ × Bytes))
    → i ≢ j
    → get_window j (delete_window i buffers) ≡ get_window j buffers
unfolding delete_window get_window
get-delete_ne i j [] ne = refl
get-delete_ne i j ((k, bytes) ∷ buffers) ne = ground (arith, get-delete_ne i j buffers ne)

pub get-delete_self :
    (i : ℕ) (buffers : List (ℕ × Bytes)) → get_window i (delete_window i buffers) ≡ none
unfolding delete_window get_window
get-delete_self i [] = refl
get-delete_self i ((k, bytes) ∷ buffers) = ground (arith, get-delete_self i buffers)

pub length-end_fetch : (i : ℕ) (fs : List ℕ) → Memᴰ i fs → suc (length (end_fetch i fs)) ≡ length fs
unfolding end_fetch
length-end_fetch i [] m = elim m [ ]
length-end_fetch i (j ∷ fs) (Memᴰ.head e) = ground (arith, e)
length-end_fetch i (j ∷ fs) (Memᴰ.tail m) = ground (arith, length-end_fetch i fs m)

pub Memᴰ-end_fetch : (i j : ℕ) (fs : List ℕ) → i ≢ j → Memᴰ j fs → Memᴰ j (end_fetch i fs)
unfolding end_fetch
Memᴰ-end_fetch i j [] ne m = elim m [ ]
Memᴰ-end_fetch i j (k ∷ fs) ne m = elim (Bool-cases (k == i)) [
  | inl e ↦ rw (e, if◌then◌else◌) (past ((==_iff k i).0 e) m)
  | inr e ↦ rw (e, if◌then◌else◌) (kept (λ n. Memᴰ-end_fetch i j fs ne n) m)
]
  where
    past : k ≡ i → Memᴰ j (k ∷ fs) → Memᴰ j fs
    past e (Memᴰ.head p) = absurd (ne (sym (p ∙ e)))
    past e (Memᴰ.tail n) = n

    kept : (Memᴰ j fs → Memᴰ j (end_fetch i fs)) → Memᴰ j (k ∷ fs) → Memᴰ j (k ∷ end_fetch i fs)
    kept rest (Memᴰ.head p) = Memᴰ.head p
    kept rest (Memᴰ.tail n) = Memᴰ.tail (rest n)

pub get-set_self :
    (i j : ℕ) (b : Bytes) (buffers : List (ℕ × Bytes))
    → (i == j) ≡ true
    → get_window j (set_window i b buffers) ≡ some b
unfolding get_window
get-set_self i j b buffers e = rw (e, if◌then◌else◌) refl

pub get-set_ne :
    (i j : ℕ) (b : Bytes) (buffers : List (ℕ × Bytes))
    → (i == j) ≡ false
    → get_window j (set_window i b buffers) ≡ get_window j buffers
unfolding get_window
get-set_ne i j b buffers e =
    rw (e, if◌then◌else◌) (get-delete_ne i j buffers (λ p. ground (arith, p, e)))

pub get-nil : (i : ℕ) (b : Bytes) → get_window i [] ≡ some b → ⊥
unfolding get_window
get-nil i b h = cc (h)

pub get-first : (j : ℕ) (x b : Bytes) → get_window j ((0, x) ∷ []) ≡ some b → (0 ≡ j) × (b ≡ x)
unfolding get_window
get-first j x b h = ground (arith, h)

pub get-first_self : (j : ℕ) (x : Bytes) → j < 1 → get_window j ((0, x) ∷ []) ≡ some x
unfolding get_window
get-first_self j x h = ground (arith, h)

-- ===== src/Base/Pointers.antt =====
-- Heaps and the maps that hold addresses in them: what stays true when an object is allocated at a
-- new address, or written through a pointer.
use simple_cgate.Base.Equality.{KeyTest, nat_eq}
use simple_cgate.Base.Maps.{Map, put, modify, is_some, bind_some}
use Prim.Native.Nat.{ℕ, ◌+◌, ◌≤◌}
use mathlib.Core.Path.{◌≡◌, refl}
use mathlib.Core.Bool.{true}
use mathlib.Core.Option.{Option, none, some}
use native.Mathlib.Omega.{arith}

-- No object stands at or above the next address.
abbrev pub Fresh : {A : Type 0} → ℕ → Map ℕ A → Type 0
Fresh n h = (p : ℕ) → n ≤ p → h p ≡ none

-- What a map names by a key is an object that has this key.
abbrev pub Keyed : {K A : Type 0} → (A → Option K) → Map K ℕ → Map ℕ A → Type 0
Keyed {K = K} key m h = (k : K) (p : ℕ) → m k ≡ some p → bind_some (h p) key ≡ some k

-- Every object's reference leads to an object.
abbrev pub Refers : {A B : Type 0} → (A → ℕ) → Map ℕ A → Map ℕ B → Type 0
Refers {A = A} ref h g = (p : ℕ) (a : A) → h p ≡ some a → is_some (g (ref a)) ≡ true

-- The objects of the first heap stand in the second one too.
abbrev pub Grows : {A : Type 0} → Map ℕ A → Map ℕ A → Type 0
Grows g g' = (p : ℕ) → is_some (g p) ≡ true → is_some (g' p) ≡ true

module _ {A : Type 0} where
  pub Fresh-suc : (n : ℕ) (h : Map ℕ A) → Fresh n h → Fresh (n + 1) h
  Fresh-suc n h f p le = f p (omega arith)

  pub Fresh-put : (n : ℕ) (a : A) (h : Map ℕ A) → Fresh n h → Fresh (n + 1) (put n a h)
  Fresh-put n a h f p le = ground (arith, f p)

  pub Fresh-modify : (n q : ℕ) (f : A → A) (h : Map ℕ A) → Fresh n h → Fresh n (modify q f h)
  Fresh-modify n q f h fr p le = ground (arith, fr p)

  pub Grows-put : (n : ℕ) (a : A) (h : Map ℕ A) → Grows h (put n a h)
  Grows-put n a h p e = ground arith

  pub Grows-modify : (q : ℕ) (f : A → A) (h : Map ℕ A) → Grows h (modify q f h)
  Grows-modify q f h p e = ground arith

  pub Grows-refl : (h : Map ℕ A) → Grows h h
  Grows-refl h p e = e

module _ {K A : Type 0} (key : A → Option K) where
  pub Keyed-modify :
      (m : Map K ℕ) (q : ℕ) (f : A → A) (h : Map ℕ A)
      → ((a : A) → key (f a) ≡ key a)
      → Keyed key m h
      → Keyed key m (modify q f h)
  Keyed-modify m q f h same v k p e = go (h p) (v k p e) refl
    where
      go :
          (o : Option A)
          → bind_some o key ≡ some k
          → h p ≡ o
          → bind_some (modify q f h p) key ≡ some k
      go none u e' = ground arith
      go (some a) u e' = ground (arith, same a)

  pub Keyed-put_other :
      (m : Map K ℕ) (n : ℕ) (a : A) (h : Map ℕ A)
      → Fresh n h
      → Keyed key m h
      → Keyed key m (put n a h)
  Keyed-put_other m n a h f v k p e = ground (arith, v k p, f n)

  pub Keyed-put :
      ⦃test : KeyTest K⦄ (m : Map K ℕ) (k₀ : K) (n : ℕ) (a : A) (h : Map ℕ A)
      → Fresh n h
      → key a ≡ some k₀
      → Keyed key m h
      → Keyed key (put k₀ n m) (put n a h)
  Keyed-put ⦃test⦄ m k₀ n a h f here v k p eq = ground (arith, v k p, f n, test.same_key_iff k₀ k)

pub Keyed-key :
    {K A : Type 0} (key key' : A → Option K) (m : Map K ℕ) (h : Map ℕ A)
    → ((a : A) (k : K) → key a ≡ some k → key' a ≡ some k)
    → Keyed key m h
    → Keyed key' m h
Keyed-key {K} {A} key key' m h same v k p e = go (h p) (v k p e)
  where
    go : (o : Option A) → bind_some o key ≡ some k → bind_some o key' ≡ some k
    go none u = u
    go (some a) u = same a k u

module _ {A B : Type 0} (ref : A → ℕ) where
  pub Refers-Grows : (h : Map ℕ A) (g g' : Map ℕ B) → Grows g g' → Refers ref h g → Refers ref h g'
  Refers-Grows h g g' w v p a e = w (ref a) (v p a e)

  pub Refers-put :
      (n : ℕ) (a : A) (h : Map ℕ A) (g : Map ℕ B)
      → is_some (g (ref a)) ≡ true
      → Refers ref h g
      → Refers ref (put n a h) g
  Refers-put n a h g live v p b e = ground (arith, v p b)

  pub Refers-modify :
      (q : ℕ) (f : A → A) (h : Map ℕ A) (g : Map ℕ B)
      → ((a : A) → ref (f a) ≡ ref a)
      → Refers ref h g
      → Refers ref (modify q f h) g
  Refers-modify q f h g same v p b e = go (h p) refl
    where
      go : (o : Option A) → h p ≡ o → is_some (g (ref b)) ≡ true
      go none e' = ground arith
      go (some a) e' = ground (arith, same a, v p a)

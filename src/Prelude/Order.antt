-- ===== src/Prelude/Order.antt =====
-- `Ord::cmp` and `Ordering::then` of the standard library, with the laws of a total order.
use Prim.Native.Nat.{compare}
pub use Prim.Native.Nat.{Ordering}
use codequery.Prelude.{ℕ, ◌≡◌, Bool, true, false, arith}
use codequery.Prelude.Sort.{IsOrder}

abbrev pub reverse : Ordering → Ordering
reverse Ordering.lt = Ordering.gt
reverse Ordering.eq = Ordering.eq
reverse Ordering.gt = Ordering.lt

abbrev pub then : Ordering → Ordering → Ordering
then Ordering.lt o = Ordering.lt
then Ordering.eq o = o
then Ordering.gt o = Ordering.gt

abbrev pub not_gt : Ordering → Bool
not_gt Ordering.gt = false
not_gt _ = true

module _ {ℓ} {A : Type ℓ} where
  pub record IsCmp (cmp : A → A → Ordering) : Type ℓ where
    pub swap : (a b : A) → cmp b a ≡ reverse (cmp a b)
    pub trans : (a b c : A) → cmp a b ≡ Ordering.lt → cmp b c ≡ Ordering.lt → cmp a c ≡ Ordering.lt
    pub eq_left : (a b c : A) → cmp a b ≡ Ordering.eq → cmp a c ≡ cmp b c

  -- The comparison that `sort_by` is given.
  abbrev pub le_by : (A → A → Ordering) → A → A → Bool
  le_by cmp a b = not_gt (cmp a b)

  pub le_by-IsOrder : (cmp : A → A → Ordering) → IsCmp cmp → IsOrder (le_by cmp)
  le_by-IsOrder cmp h = record {
    total = λ a b e. ground (arith, h.swap a b);
    trans = λ a b c p q. ground (
      arith,
      h.trans a b c,
      h.eq_left a b c,
      h.eq_left b c a,
      h.swap a b,
      h.swap b c,
      h.swap a c,
    );
  }

  -- Comparing by one key and then by another.
  abbrev pub then_by : (A → A → Ordering) → (A → A → Ordering) → A → A → Ordering
  then_by c d a b = then (c a b) (d a b)

  pub then_by-IsCmp : (c d : A → A → Ordering) → IsCmp c → IsCmp d → IsCmp (then_by c d)
  then_by-IsCmp c d h k = record {
    swap = λ x y. ground (arith, h.swap x y, k.swap x y);
    trans = λ x y z p q. ground (
      arith,
      h.trans x y z,
      k.trans x y z,
      h.eq_left x y z,
      h.eq_left y z x,
      h.swap x y,
      h.swap y z,
      h.swap x z,
    );
    eq_left = λ x y z p. ground (arith, h.eq_left x y z, k.eq_left x y z);
  }

-- Comparing by a field.
abbrev pub on {ℓ κ} : {A : Type ℓ} {B : Type κ} → (B → B → Ordering) → (A → B) → A → A → Ordering
on c f a b = c (f a) (f b)

pub on-IsCmp {ℓ κ} :
    {A : Type ℓ} {B : Type κ} (c : B → B → Ordering) (f : A → B) → IsCmp c → IsCmp (on c f)
on-IsCmp c f h = record {
  swap = λ a b. h.swap (f a) (f b);
  trans = λ a b d. h.trans (f a) (f b) (f d);
  eq_left = λ a b d. h.eq_left (f a) (f b) (f d);
}

abbrev pub nat_cmp : ℕ → ℕ → Ordering
nat_cmp a b = compare a b

pub nat_cmp-IsCmp : IsCmp nat_cmp
nat_cmp-IsCmp = record {
  swap = λ a b. ground arith;
  trans = λ a b c p q. ground arith;
  eq_left = λ a b c p. ground arith;
}

-- The comparison in the other direction.
abbrev pub flip_cmp {ℓ} : {A : Type ℓ} → (A → A → Ordering) → A → A → Ordering
flip_cmp c a b = c b a

-- ===== src/Canonical/Sorted.antt =====
-- Insertion under a total order of the keys.
use tpsr_v.Prelude.{◌≡◌, ◌≢◌, sym, String, Bool, true, false, ◌⊎◌, inl, inr, Bool-cases, arith}
use tpsr_v.Canonical.{Value, Fields, end, field, Host, insert}

-- The order of `sort` on texts.
pub record IsOrder (le : String → String → Bool) : Type 0 where
  pub total : (a b : String) → le a b ≡ false → le b a ≡ true
  pub antisymmetric : (a b : String) → le a b ≡ true → le b a ≡ true → a ≡ b
  pub transitive : (a b c : String) → le a b ≡ true → le b c ≡ true → le a c ≡ true

module _ (h : Host) (o : IsOrder h.le) where
  -- Of two keys that differ, one comes before the other.
  comes_before :
      (j k : String)
      → j ≢ k
      → ((h.le j k ≡ true) × (h.le k j ≡ false)) ⊎ ((h.le j k ≡ false) × (h.le k j ≡ true))
  comes_before j k ne = elim (Bool-cases (h.le j k)) [
    | inl y ↦ elim (Bool-cases (h.le k j)) [
      | inl z ↦ absurd (ne (o.antisymmetric j k y z))
      | inr z ↦ inl (y, z)
    ]
    | inr n ↦ inr (n, o.total j k n)
  ]

  ordered_comm :
      (j k : String) (v w : Value) (fs : Fields)
      → h.le j k ≡ true
      → h.le k j ≡ false
      → insert h j v (insert h k w fs) ≡ insert h k w (insert h j v fs)
  unfolding insert
  ordered_comm j k v w end a b = ground arith
  ordered_comm j k v w (field i u fs) a b = ground (
    arith,
    ordered_comm j k v w fs a b,
    o.transitive j k i a,
    o.total k i,
    o.total j i,
    o.transitive k i j,
  )

  pub insert_comm :
      (j k : String) (v w : Value) (fs : Fields)
      → j ≢ k
      → insert h j v (insert h k w fs) ≡ insert h k w (insert h j v fs)
  insert_comm j k v w fs ne = elim (comes_before j k ne) [
    | inl (a, b) ↦ ordered_comm j k v w fs a b
    | inr (a, b) ↦ sym (ordered_comm k j w v fs b a)
  ]

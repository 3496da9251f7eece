-- ===== src/Decoder/Data.antt =====
-- AmqpValueDecoder.h: `DecodedAmqpValue`, and the `std::map` that holds a decoded AMQP map.
use azure_uamqp_php.Prelude.{
  ℕ, zero, suc, Bool, true, false, Option, none, some, [], ◌∷◌, Text, ltb, text_eq, ◌&&◌, ◌||◌,
  if◌then◌else◌, ◌==◌, ◌≡◌, refl, arith, text_eq-eq, text_eq_refl, text_eq-eq, text_eq_refl,
}
use azure_uamqp_php.Prelude.Int.{ℤ}

-- The struct's tag says which one of its fields is in use. `D` is `double`.
mutual
  pub data Decoded (D : Type 0) : Type 0 where
    null : Decoded D
    boolean : Bool → Decoded D
    integer : ℤ → Decoded D
    double : D → Decoded D
    string : Text → Decoded D
    map : Entries D → Decoded D
    list : Items D → Decoded D

  -- `std::map<std::string, DecodedAmqpValue>`: its entries in the order of their keys.
  pub data Entries (D : Type 0) : Type 0 where
    end : Entries D
    entry : Text → Decoded D → Entries D → Entries D

  -- `std::vector<DecodedAmqpValue>`
  pub data Items (D : Type 0) : Type 0 where
    nil : Items D
    cons : Decoded D → Items D → Items D

-- `operator<` of `std::string`: lexicographic on bytes.
unfoldable pub text_lt : Text → Text → Bool
text_lt [] [] = false
text_lt [] (_ ∷ _) = true
text_lt (_ ∷ _) [] = false
text_lt (a ∷ s) (b ∷ t) = ltb a b || (a == b && text_lt s t)

module _ {D : Type 0} where
  -- `map[name] = value`
  unfoldable pub insert : Text → Decoded D → Entries D → Entries D
  unfolding text_lt
  insert k v Entries.end = Entries.entry k v Entries.end
  insert k v (Entries.entry j w m) =
      if text_lt k j
      then Entries.entry k v (Entries.entry j w m)
      else if text_lt j k
      then Entries.entry j w (insert k v m)
      else Entries.entry j v m

  unfoldable pub lookup : Text → Entries D → Option (Decoded D)
  lookup k Entries.end = none
  lookup k (Entries.entry j w m) = if text_eq j k then some w else lookup k m

  abbrev pub item_at : Items D → ℕ → Option (Decoded D)
  item_at Items.nil i = none
  item_at (Items.cons d ds) zero = some d
  item_at (Items.cons d ds) (suc i) = item_at ds i

  abbrev pub count : Items D → ℕ
  count Items.nil = 0
  count (Items.cons d ds) = suc (count ds)

pub text_lt_irrefl : (s : Text) → text_lt s s ≡ false
unfolding text_lt
text_lt_irrefl [] = refl
text_lt_irrefl (a ∷ s) = ground (arith, text_lt_irrefl s)

pub text_lt_trans : (s t u : Text) → text_lt s t ≡ true → text_lt t u ≡ true → text_lt s u ≡ true
unfolding text_lt
text_lt_trans [] t [] p q = ground arith
text_lt_trans [] t (c ∷ u) p q = refl
text_lt_trans (a ∷ s) [] u p q = ground arith
text_lt_trans (a ∷ s) (b ∷ t) [] p q = ground arith
text_lt_trans (a ∷ s) (b ∷ t) (c ∷ u) p q = ground (arith, text_lt_trans s t u)

text_lt_total : (s t : Text) → text_lt s t ≡ false → text_lt t s ≡ false → s ≡ t
unfolding text_lt
text_lt_total [] [] p q = refl
text_lt_total [] (b ∷ t) p q = ground arith
text_lt_total (a ∷ s) [] p q = ground arith
text_lt_total (a ∷ s) (b ∷ t) p q = ground (arith, text_lt_total s t)

-- The first key, if there is one, is above `k`.
abbrev pub Above : {D : Type 0} → Text → Entries D → Type 0
Above k Entries.end = Unit {0}
Above k (Entries.entry j w m) = text_lt k j ≡ true

-- The keys ascend strictly, so no key is there twice.
abbrev pub IsSorted : {D : Type 0} → Entries D → Type 0
IsSorted Entries.end = Unit {0}
IsSorted (Entries.entry k v m) = Above k m × IsSorted m

module _ {D : Type 0} where
  insert-Above :
      (j k : Text) (v : Decoded D) (m : Entries D)
      → text_lt j k ≡ true
      → Above j m
      → Above j (insert k v m)
  unfolding insert
  insert-Above j k v Entries.end h a = h
  insert-Above j k v (Entries.entry i w m) h a = ground arith

  pub insert-IsSorted :
      (k : Text) (v : Decoded D) (m : Entries D) → IsSorted m → IsSorted (insert k v m)
  unfolding insert
  insert-IsSorted k v Entries.end s = (tt, tt)
  insert-IsSorted k v (Entries.entry j w m) s =
      ground (arith, insert-IsSorted k v m s.1, insert-Above j k v m)

  pub lookup-insert :
      (k j : Text) (v : Decoded D) (m : Entries D)
      → lookup j (insert k v m) ≡ (if text_eq k j then some v else lookup j m)
  unfolding lookup insert
  lookup-insert k j v Entries.end = refl
  lookup-insert k j v (Entries.entry i w m) = ground (
    arith,
    text_lt_total k i,
    text_eq-eq k j,
    text_eq-eq i j,
    text_eq_refl j,
    lookup-insert k j v m,
  )

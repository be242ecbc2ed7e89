-- ===== src/Passwords/Reads.antt =====
-- src/modules/auth/repositories/password-history.repository.ts: which rows are among the newest, where
-- rows of one time may come in any order.
use kuybi.Prelude.{
  Bool, List, String, ◌≡◌, ℕ, ◌∷◌, ◌&&◌, true, ◌<◌, All, leb, ◌≤◌, ◌==◌, Bool-cases, string_eq, [],
  inl, arith, inr, refl, false, take, suc, zero,
}
use kuybi.Prelude.Table.{count, select, count_le}
use kuybi.Passwords.{Entry, is_of, Order}

-- newest first; rows of one time in any order
abbrev pub IsSorted : List Entry → Type 0
IsSorted [] = Unit {0}
IsSorted (e ∷ es) = All (λ x. x.created_at ≤ e.created_at) es × IsSorted es

-- What `ORDER BY "createdAt" DESC` gives: the same rows, as often, and sorted.
pub record IsOrder (order : Order) : Type 0 where
  pub same : (p : Entry → Bool) (rows : List Entry) → count p (order rows) ≡ count p rows
  pub sorted : (rows : List Entry) → IsSorted (order rows)

-- the user's rows from the time `t` on
abbrev pub is_since : String → ℕ → Entry → Bool
is_since user_id t e = is_of user_id e && leb t e.created_at

abbrev pub is_row : String → String → ℕ → Entry → Bool
is_row user_id hash t e = is_since user_id t e && e.password_hash == hash

pub count_unmet :
    (p : Entry → Bool) (es : List Entry) → ((e : Entry) → p e ≡ false) → count p es ≡ 0
unfolding count
count_unmet p [] h = refl
count_unmet p (e ∷ es) h = ground (arith, h e, count_unmet p es h)

count_below :
    (p : Entry → Bool) (bound : ℕ) (es : List Entry)
    → ((e : Entry) → p e ≡ true → bound < e.created_at)
    → All (λ e. e.created_at ≤ bound) es
    → count p es ≡ 0
unfolding count
count_below p bound [] h a = refl
count_below p bound (e ∷ es) h (b, bs) = elim (Bool-cases (p e)) [
  | inl t ↦ absurd (omega (arith, h e t, b))
  | inr f ↦ ground (arith, f, count_below p bound es h bs)
]

pub count-select :
    (p q : Entry → Bool) (es : List Entry) → count p (select q es) ≡ count (λ e. q e && p e) es
unfolding count select
count-select p q [] = refl
count-select p q (e ∷ es) = elim (Bool-cases (q e)) [
  | inl t ↦ ground (arith, t, count-select p q es)
  | inr f ↦ ground (arith, f, count-select p q es)
]

pub count-take_le : (p : Entry → Bool) (n : ℕ) (es : List Entry) → count p (take n es) ≤ count p es
unfolding count
count-take_le p zero es = omega arith
count-take_le p (suc n) [] = omega arith
count-take_le p (suc n) (e ∷ es) = ground (arith, count-take_le p n es)

-- The first `n` of the sorted rows have all that are from a time on, if these are no more.
pub newest_kept :
    (p : Entry → Bool) (t n : ℕ) (es : List Entry)
    → ((e : Entry) → p e ≡ true → t ≤ e.created_at)
    → IsSorted es
    → count (λ e. leb t e.created_at) es ≤ n
    → count p (take n es) ≡ count p es
unfolding count
newest_kept p t zero es h s l =
    let c = count_le p (λ e. leb t e.created_at) es (λ e k. ground (arith, h e k)) in omega arith
newest_kept p t (suc n) [] h s l = refl
newest_kept p t (suc n) (e ∷ es) h (a, s) l = elim (Bool-cases (leb t e.created_at)) [
  | inl k ↦ ground (arith, k, newest_kept p t n es h s (ground (arith, l, k)))
  | inr k ↦
      let older : e.created_at < t = ground (arith, k) in
      let gone = count_below p e.created_at es (λ x i. omega (arith, h x i, older)) a in
      ground (arith, gone, count-take_le p n es)
]

pub count-and_of :
    (p : Entry → Bool) (user_id : String) (rows : List Entry)
    → ((e : Entry) → p e ≡ true → is_of user_id e ≡ true)
    → count (λ e. is_of user_id e && p e) rows ≡ count p rows
unfolding count
count-and_of p user_id [] h = refl
count-and_of p user_id (e ∷ es) h = elim (Bool-cases (p e)) [
  | inl t ↦ ground (arith, t, h e t, count-and_of p user_id es h)
  | inr f ↦ ground (arith, f, count-and_of p user_id es h)
]

-- ===== src/Proof/Validators/Weighed.antt =====
-- What a validator set that was read has: members in strict order of their ids, weighed.
use Prim.Native.Nat.{Ordering}
use mathlib.Core.Path.{subst}
use ton_net.Base.{
  ℕ, ◌+◌, ◌^◌, ◌<◌, ◌≡◌, refl, sym, Bool, true, false, ◌||◌, List, [], ◌∷◌, ◌++◌, leb, arith, ◌⊎◌,
  Bool-cases, inl, inr, if◌then◌else◌, ◌∙◌,
}
use ton_net.Base.Result.{Result, ok, err}
use ton_net.Base.Compare.{
  cmp_bytes, cmp_bytes→eq, cmp_bytes-gt, cmp_bytes_refl, eq_bytes, eq_bytes_refl, Less,
}
use ton_net.Cell.Identity.{Hash}
use ton_net.Proof.Wire.{BlockError, malformed}
use ton_net.Proof.Validators.{
  Validator, Member, ValidatorSet, insert_member, sort_members, has_repeat, members_loop,
  from_entries, weigh_entries, short_id,
}

unfoldable pub weight_of_all : List Member → ℕ
weight_of_all [] = 0
weight_of_all (m ∷ ms) = Validator.weight m.validator + weight_of_all ms

weight_of_all-snoc :
    (ms : List Member) (m : Member)
    → weight_of_all (ms ++ (m ∷ [])) ≡ weight_of_all ms + Validator.weight m.validator
unfolding weight_of_all
weight_of_all-snoc [] m = omega arith
weight_of_all-snoc (x ∷ ms) m = omega (arith, weight_of_all-snoc ms m)

insert-by :
    (m x : Member) (xs : List Member) (o : Ordering)
    → weight_of_all (insert_member m xs) ≡ Validator.weight m.validator + weight_of_all xs
    → weight_of_all (elim o [ Ordering.lt ↦ x ∷ insert_member m xs | _ ↦ m ∷ x ∷ xs ])
      ≡ Validator.weight m.validator + (Validator.weight x.validator + weight_of_all xs)
unfolding weight_of_all
insert-by m x xs Ordering.lt h = omega (arith, h)
insert-by m x xs Ordering.eq h = refl
insert-by m x xs Ordering.gt h = refl

weight_of_all-insert_member :
    (m : Member) (xs : List Member)
    → weight_of_all (insert_member m xs) ≡ Validator.weight m.validator + weight_of_all xs
unfolding weight_of_all insert_member
weight_of_all-insert_member m [] = refl
weight_of_all-insert_member m (x ∷ xs) =
    insert-by m x xs (cmp_bytes x.id m.id) (weight_of_all-insert_member m xs)

weight_of_all-sort_members : (ms : List Member) → weight_of_all (sort_members ms) ≡ weight_of_all ms
unfolding weight_of_all sort_members
weight_of_all-sort_members [] = refl
weight_of_all-sort_members (m ∷ ms) =
    omega (arith, weight_of_all-insert_member m (sort_members ms), weight_of_all-sort_members ms)

-- In order, a member before itself allowed.
abbrev NoLater : Member → List Member → Type 0
NoLater m [] = Unit {0}
NoLater m (x ∷ xs) = (cmp_bytes m.id x.id ≡ Ordering.eq) ⊎ Less m.id x.id

abbrev InOrder : List Member → Type 0
InOrder [] = Unit {0}
InOrder (m ∷ ms) = NoLater m ms × InOrder ms

-- Each id comes strictly before the next.
abbrev pub Increasing : List Member → Type 0
Increasing [] = Unit {0}
Increasing (m ∷ []) = Unit {0}
Increasing (m ∷ n ∷ ms) = Less m.id n.id × Increasing (n ∷ ms)

NoLater-by :
    (x m y : Member) (ys : List Member) (o : Ordering)
    → NoLater x (y ∷ ys)
    → Less x.id m.id
    → NoLater x (elim o [ Ordering.lt ↦ y ∷ insert_member m ys | _ ↦ m ∷ y ∷ ys ])
NoLater-by x m y ys Ordering.lt h k = h
NoLater-by x m y ys Ordering.eq h k = inr k
NoLater-by x m y ys Ordering.gt h k = inr k

NoLater-insert_member :
    (x m : Member) (xs : List Member)
    → NoLater x xs
    → Less x.id m.id
    → NoLater x (insert_member m xs)
unfolding insert_member
NoLater-insert_member x m [] h k = inr k
NoLater-insert_member x m (y ∷ ys) h k = NoLater-by x m y ys (cmp_bytes y.id m.id) h k

cmp_bytes-of_eq : (a b : Hash) → a ≡ b → cmp_bytes b a ≡ Ordering.eq
cmp_bytes-of_eq a b h = rw (h) (cmp_bytes_refl b)

InOrder-by :
    (m x : Member) (xs : List Member) (o : Ordering)
    → cmp_bytes x.id m.id ≡ o
    → InOrder (x ∷ xs)
    → InOrder (insert_member m xs)
    → InOrder (elim o [ Ordering.lt ↦ x ∷ insert_member m xs | _ ↦ m ∷ x ∷ xs ])
InOrder-by m x xs Ordering.lt e h rest = (NoLater-insert_member x m xs h.0 e, rest)
InOrder-by m x xs Ordering.eq e h rest =
    (inl (cmp_bytes-of_eq x.id m.id (cmp_bytes→eq x.id m.id e)), h)
InOrder-by m x xs Ordering.gt e h rest = (inr (cmp_bytes-gt x.id m.id e), h)

insert_member-InOrder : (m : Member) (xs : List Member) → InOrder xs → InOrder (insert_member m xs)
unfolding insert_member
insert_member-InOrder m [] h = (tt, tt)
insert_member-InOrder m (x ∷ xs) h =
    InOrder-by m x xs (cmp_bytes x.id m.id) refl h (insert_member-InOrder m xs h.1)

sort_members-InOrder : (ms : List Member) → InOrder (sort_members ms)
unfolding sort_members
sort_members-InOrder [] = tt
sort_members-InOrder (m ∷ ms) = insert_member-InOrder m (sort_members ms) (sort_members-InOrder ms)

neither : (a b : Bool) → (a || b) ≡ false → (a ≡ false) × (b ≡ false)
neither a b h = ground arith

strictly : (a b : Hash) → (cmp_bytes a b ≡ Ordering.eq) ⊎ Less a b → eq_bytes a b ≡ false → Less a b
strictly a b (inl e) h =
    absurd (cc (h, subst (λ x. eq_bytes a x ≡ true) (cmp_bytes→eq a b e) (eq_bytes_refl a)))
strictly a b (inr l) h = l

InOrder-Increasing : (ms : List Member) → InOrder ms → has_repeat ms ≡ false → Increasing ms
unfolding has_repeat
InOrder-Increasing [] o h = tt
InOrder-Increasing (m ∷ []) o h = tt
InOrder-Increasing (m ∷ n ∷ ms) o h =
    let k = neither (eq_bytes m.id n.id) (has_repeat (n ∷ ms)) h in
    (strictly m.id n.id (o.0) (k.0), InOrder-Increasing (n ∷ ms) (o.1) (k.1))

none_yet : 0 ≡ weight_of_all []
unfolding weight_of_all
none_yet = refl

read_pair :
    (ms : List Member) (total : ℕ) (r : List Member × ℕ)
    → ◌≡◌ {A = Result BlockError (List Member × ℕ)} (ok (ms, total)) (ok r)
    → (ms, total) ≡ r
read_pair ms total r h = cc

read_set : (a b : ValidatorSet) → ◌≡◌ {A = Result BlockError ValidatorSet} (ok a) (ok b) → a ≡ b
read_set a b h = cc

-- What holds of a set: its members in strict order, its weight the sum of theirs and a `u64`.
pub record Weighed (set : ValidatorSet) : Type 0 where
  pub increasing : Increasing set.members
  pub sum : set.total_weight ≡ weight_of_all set.members
  pub fits : set.total_weight < 2 ^ 64

module _ (sha256 : List ℕ → Hash) where
  loop_weighed :
      (entries : List (Result BlockError Validator)) (ms : List Member) (total : ℕ)
      (r : List Member × ℕ)
      → total ≡ weight_of_all ms
      → total < 2 ^ 64
      → members_loop sha256 entries ms total ≡ ok r
      → (r.1 ≡ weight_of_all (r.0)) × (r.1 < 2 ^ 64)
  unfolding members_loop
  loop_weighed [] ms total r e small h =
      subst (λ q. (q.1 ≡ weight_of_all (q.0)) × (q.1 < 2 ^ 64)) (read_pair ms total r h) (e, small)
  loop_weighed (err x ∷ entries) ms total r e small h = absurd (cc h)
  loop_weighed (ok v ∷ entries) ms total r e small h =
      elim (Bool-cases (leb (2 ^ 64) (total + v.weight))) [
        | inl over ↦ absurd (cc (rw (over) at h))
        | inr fits ↦
            loop_weighed entries
              (ms ++ (record { id = short_id sha256 v.public_key; validator = v } ∷ []))
              (total + v.weight) r
              (omega (
                arith,
                e,
                weight_of_all-snoc ms (record { id = short_id sha256 v.public_key; validator = v }),
              ))
              (ground arith) (rw (fits) at h)
      ]

  checked :
      (since until total main : ℕ) (r : List Member × ℕ) (b : Bool) (set : ValidatorSet)
      → has_repeat (sort_members (r.0)) ≡ b
      → (r.1 ≡ weight_of_all (r.0)) × (r.1 < 2 ^ 64)
      → (if b
          then err (malformed "a validator set that names the same key twice")
          else ok (record {
            utime_since = since;
            utime_until = until;
            total = total;
            main = main;
            members = sort_members (r.0);
            total_weight = r.1;
          }))
        ≡ ok set
      → Weighed set
  checked since until total main r true set repeat w h = absurd (cc h)
  checked since until total main r false set repeat w h = subst Weighed (read_set _ set h) (record {
    increasing = InOrder-Increasing (sort_members (r.0)) (sort_members-InOrder (r.0)) repeat;
    sum = w.0 ∙ sym (weight_of_all-sort_members (r.0));
    fits = w.1;
  })

  read_entries :
      (since until total main : ℕ) (entries : List (Result BlockError Validator))
      (o : Result BlockError (List Member × ℕ)) (set : ValidatorSet)
      → members_loop sha256 entries [] 0 ≡ o
      → weigh_entries since until total main o ≡ ok set
      → Weighed set
  unfolding weigh_entries
  read_entries since until total main entries (err e) set k h = absurd (cc h)
  read_entries since until total main entries (ok r) set k h =
      checked since until total main r (has_repeat (sort_members (r.0))) set refl
        (loop_weighed entries [] 0 r none_yet (omega arith) k) h

  -- A validator set that is read from its entries has its members in strict order of their ids,
  -- and its weight is the sum of theirs and below 2^64.
  pub from_entries-Weighed :
      (since until total main : ℕ) (entries : List (Result BlockError Validator))
      (set : ValidatorSet)
      → from_entries sha256 since until total main entries ≡ ok set
      → Weighed set
  unfolding from_entries
  from_entries-Weighed since until total main entries set h =
      read_entries since until total main entries (members_loop sha256 entries [] 0) set refl h

-- ===== src/Prepared/Cache.antt =====
-- The cache of one backend's statements (crates/havuz-pg/src/prepared.rs).
use havuz.Base.{
  suc, ◌≤◌, ◌<◌, ◌≡◌, refl, ap, sym, ◌∙◌, Bool, true, false, not, ◌&&◌, Option, none, some, List,
  [], ◌∷◌, ◌++◌, leb, if◌then◌else◌, length, length-append, Bool-cases, inl, inr, arith,
}
use havuz.Prepared.Wire.{Bytes, same}
use havuz.Prepared.{
  BackendStatements, has, insert, remove, evict, contains, without, max_statements, fresh,
}
use havuz.Prepared.Names.{
  AllDistinct, contains_at, same_refl, contains-without, contains-append, without-absent,
  without-AllDistinct, append-AllDistinct, length-without,
}

-- The two fields agree, no name stands twice, and there are at most 256.
pub record Inv (b : BackendStatements) : Type 0 where
  pub agree : b.present ≡ b.order
  pub distinct : AllDistinct b.order
  pub bounded : length b.order ≤ max_statements

abbrev pub both : List Bytes → BackendStatements
both l = record { present = l; order = l }

pub agrees : (b : BackendStatements) → Inv b → b ≡ both b.order
agrees b v = ap (λ p. record { present = p; order = b.order }) v.agree

pub fresh-Inv : Inv fresh
fresh-Inv = record { agree = refl; distinct = tt; bounded = omega arith }

both-Inv : (l : List Bytes) → AllDistinct l → length l ≤ max_statements → Inv (both l)
both-Inv l d h = record { agree = refl; distinct = d; bounded = h }

remove-both :
    (l : List Bytes) (n : Bytes)
    → AllDistinct l
    → length l ≤ max_statements
    → Inv (remove (both l) n)
unfolding remove
remove-both l n d h = elim (Bool-cases (has (both l) n)) [
  | inl e ↦
      rw e
        (both-Inv (without l n) (without-AllDistinct l n d) (omega (arith, length-without l n, h)))
  | inr e ↦ rw e (both-Inv l d h)
]

pub remove-Inv : (b : BackendStatements) (n : Bytes) → Inv b → Inv (remove b n)
remove-Inv b n v = rw (agrees b v) (remove-both b.order n v.distinct v.bounded)

pub has-remove :
    (b : BackendStatements) (n m : Bytes)
    → has (remove b n) m ≡ (if same n m then false else has b m)
unfolding has remove
has-remove b n m = ground (arith, contains-without b.present n m, contains_at b.present n m)

-- Where a name that is not there goes.
abbrev pub Inserted : List Bytes → Bytes → BackendStatements × Option Bytes → Type 0
Inserted l n (c, none) = (length l < max_statements) × (c ≡ both (l ++ n ∷ []))
Inserted l n (c, some old) =
    (rest : List Bytes) × (length l ≡ max_statements)
    × (l ≡ old ∷ rest)
    × (c ≡ both (rest ++ n ∷ []))

insert_room :
    (l : List Bytes) (n : Bytes)
    → contains l n ≡ false
    → length l < max_statements
    → insert (both l) n ≡ (both (l ++ n ∷ []), none)
unfolding insert has
insert_room l n h room = ground arith

without_first : (k : Bytes) (ks : List Bytes) → contains ks k ≡ false → without (k ∷ ks) k ≡ ks
unfolding without
without_first k ks h = ground (arith, same_refl k, without-absent ks k)

insert_full :
    (k : Bytes) (ks : List Bytes) (n : Bytes)
    → contains (k ∷ ks) n ≡ false
    → contains ks k ≡ false
    → length (k ∷ ks) ≡ max_statements
    → insert (both (k ∷ ks)) n ≡ (both (ks ++ n ∷ []), some k)
unfolding insert has evict
insert_full k ks n h d full = ground (arith, without_first k ks)

insert-both :
    (l : List Bytes) (n : Bytes)
    → contains l n ≡ false
    → AllDistinct l
    → length l ≤ max_statements
    → Inserted l n (insert (both l) n)
insert-both [] n h d b = rw (insert_room [] n h (omega arith)) (omega arith, refl)
insert-both (k ∷ ks) n h d b = elim (Bool-cases (leb max_statements (length (k ∷ ks)))) [
  | inl full ↦ rw (insert_full k ks n h d.0 (ground arith)) (ks, ground arith, refl, refl)
  | inr room ↦ rw (insert_room (k ∷ ks) n h (ground arith)) (ground arith, refl)
]

-- A name that the cache lacks goes in last. While there is room nothing else changes and nothing is
-- returned; a cache of 256 names gives up its oldest and returns that one. The cache satisfies the
-- invariant: its two fields agree, no name stands twice, and there are at most 256.
pub insert_lem :
    (b : BackendStatements) (n : Bytes) → Inv b → has b n ≡ false → Inserted b.order n (insert b n)
unfolding has
insert_lem b n v h =
    rw (agrees b v) (insert-both b.order n (ground (arith, v.agree)) v.distinct v.bounded)

-- Is this the name that was evicted?
abbrev pub is_it : Option Bytes → Bytes → Bool
is_it none m = false
is_it (some old) m = same old m

Inserted-Inv :
    (l : List Bytes) (n : Bytes) (r : BackendStatements × Option Bytes)
    → contains l n ≡ false
    → AllDistinct l
    → Inserted l n r
    → Inv r.0
unfolding contains
Inserted-Inv l n (c, none) h d (room, e) = rw e (
    both-Inv (l ++ n ∷ []) (append-AllDistinct l n h d)
      (omega (arith, room, length-append l (n ∷ []))))
Inserted-Inv l n (c, some old) h d (rest, full, l_is, e) =
    let gone : contains (old ∷ rest) n ≡ false = rw l_is at h in
    let apart : AllDistinct (old ∷ rest) = rw l_is at d in
    let size : suc (length rest) ≡ max_statements = ap length (sym l_is) ∙ full in
    rw e (
      both-Inv (rest ++ n ∷ []) (append-AllDistinct rest n (ground (arith, gone)) apart.1)
        (omega (arith, size, length-append rest (n ∷ []))))

has-Inserted :
    (l : List Bytes) (n m : Bytes) (r : BackendStatements × Option Bytes)
    → contains l n ≡ false
    → AllDistinct l
    → Inserted l n r
    → has r.0 m ≡ (if same n m then true else contains l m && not (is_it r.1 m))
unfolding has contains
has-Inserted l n m (c, none) h d (room, e) = rw e (ground (arith, contains-append l n m))
has-Inserted l n m (c, some old) h d (rest, full, l_is, e) =
    let apart : AllDistinct (old ∷ rest) = rw l_is at d in
    rw e (rw l_is (ground (arith, contains-append rest n m, apart.0, contains_at rest old m)))

pub insert-Inv : (b : BackendStatements) (n : Bytes) → Inv b → has b n ≡ false → Inv (insert b n).0
unfolding has
insert-Inv b n v h =
    Inserted-Inv b.order n (insert b n) (ground (arith, v.agree)) v.distinct (insert_lem b n v h)

pub has-insert :
    (b : BackendStatements) (n m : Bytes)
    → Inv b
    → has b n ≡ false
    → has (insert b n).0 m ≡ (if same n m then true else has b m && not (is_it (insert b n).1 m))
unfolding has
has-insert b n m v h = ground (
  arith,
  v.agree,
  has-Inserted b.order n m (insert b n) (ground (arith, v.agree)) v.distinct (insert_lem b n v h),
)

evicted_other :
    (l : List Bytes) (n : Bytes) (r : BackendStatements × Option Bytes)
    → contains l n ≡ false
    → Inserted l n r
    → is_it r.1 n ≡ false
unfolding contains
evicted_other l n (c, none) h i = refl
evicted_other l n (c, some old) h (rest, full, l_is, e) =
    let gone : contains (old ∷ rest) n ≡ false = rw l_is at h in ground (arith, gone)

pub is_it-insert :
    (b : BackendStatements) (n : Bytes) → Inv b → has b n ≡ false → is_it (insert b n).1 n ≡ false
unfolding has
is_it-insert b n v h =
    evicted_other b.order n (insert b n) (ground (arith, v.agree)) (insert_lem b n v h)

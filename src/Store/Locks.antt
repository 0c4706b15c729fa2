-- ===== src/Store/Locks.antt =====
-- Who has the lock of a log: an invariant of the objects, the open files and the inodes, and the changes
-- that keep it.
pub mod Calls
pub mod Methods
use durastream.Common.{
  ℕ, zero, suc, ◌+◌, ◌≤◌, ◌<◌, ◌≡◌, refl, sym, ap, ◌∙◌, subst, Bool, true, false, Option, none,
  some, List, [], ◌∷◌, ◌++◌, Text, ◌⊎◌, inl, inr, Option-cases, ◌==◌, if◌then◌else◌, length,
  length-append, get_elem?, set, get_elem-append, get_elem-append_last, get_elem-some,
  get_elem-grown, length-set, get_elem-set, get_elem-set_other, get_elem-set_cases, ℕ_discrete,
  arith,
}
use mathlib.Core.Option.{some-injective}
use durastream.Dict.{
  Dict, lookup, assign, remove, Below, lookup-Below, assign-Below, remove-Below, Below-grow,
}
use durastream.Disk.{LogFile}
use durastream.Stream.Defs.{Stream}
use durastream.Store.{Inode, put_inode, update_inode, held_by, holder_at, release_holder}

-- Open files and directory entries have inodes, a lock is held by a file that was opened, the lock of
-- a writer's log is held by the writer's file, and two objects do not share a file.
pub record Inv (dir : Dict) (heap : List Stream) (files : List ℕ) (inodes : List Inode)
    : Type 0 where
  pub entries : Below (length inodes) dir
  pub inos : (f ino : ℕ) → get_elem? files f ≡ some ino → ino < length inodes
  pub bounded : (ino f : ℕ) → held_by (get_elem? inodes ino) ≡ some f → f < length files
  pub known :
      (o : ℕ) (s : Stream) (f : ℕ) → get_elem? heap o ≡ some s → s.file ≡ some f → f < length files
  pub held :
      (o : ℕ) (s : Stream) (f : ℕ)
      → get_elem? heap o ≡ some s
      → s.file ≡ some f
      → s.owner ≡ true
      → holder_at inodes (get_elem? files f) ≡ some f
  pub distinct :
      (o p : ℕ) (s t : Stream) (f : ℕ)
      → get_elem? heap o ≡ some s
      → get_elem? heap p ≡ some t
      → s.file ≡ some f
      → t.file ≡ some f
      → o ≡ p

-- No object has the file.
abbrev pub IsFree : ℕ → List Stream → Type 0
IsFree f heap = (o : ℕ) (s : Stream) → get_elem? heap o ≡ some s → s.file ≡ some f → ⊥

held-grown :
    (i : Inode) (is : List Inode) (j f : ℕ)
    → i.holder ≡ none
    → held_by (get_elem? (is ++ i ∷ []) j) ≡ some f
    → held_by (get_elem? is j) ≡ some f
held-grown i [] zero f n e = absurd (cc (n, e))
held-grown i [] (suc j) f n e = absurd (cc e)
held-grown i (x ∷ is) zero f n e = e
held-grown i (x ∷ is) (suc j) f n e = held-grown i is j f n e

length-update :
    (g : Inode → Inode) (ino : ℕ) (is : List Inode) → length (update_inode g ino is) ≡ length is
length-update g ino is = by (get_elem? is ino)
  where
    by : (o : Option Inode) → length (put_inode g ino is o) ≡ length is
    by none = refl
    by (some i) = length-set is ino (g i)

-- The lock of each inode after one of them is changed.
update-cases :
    (g : Inode → Inode) (ino : ℕ) (is : List Inode) (j : ℕ)
    → (held_by (get_elem? (update_inode g ino is) j) ≡ held_by (get_elem? is j))
      ⊎ ((i : Inode) × (get_elem? is j ≡ some i)
          × (j ≡ ino)
          × (held_by (get_elem? (update_inode g ino is) j) ≡ (g i).holder))
update-cases g ino is j = elim (Option-cases (get_elem? is ino)) [
  | inl out ↦ inl (ap (λ o. held_by (get_elem? (put_inode g ino is o) j)) out)
  | inr there ↦ elim (ℕ_discrete j ino) [
    | yes eq ↦ inr (
      there.0,
      ap (get_elem? is) eq ∙ there.1,
      eq,
      ap (λ o. held_by (get_elem? (put_inode g ino is o) j)) there.1
          ∙ ap (λ k. held_by (get_elem? (set is ino (g there.0)) k)) eq
          ∙ ap held_by (get_elem-set is ino (g there.0) (get_elem-some is ino there.0 there.1)),
    )
    | no ne ↦ inl (
        ap (λ o. held_by (get_elem? (put_inode g ino is o) j)) there.1
        ∙ ap held_by (get_elem-set_other is ino j (g there.0) ne))
  ]
]

-- the lock of the inode that is changed
pub held-update :
    (g : Inode → Inode) (ino : ℕ) (is : List Inode) (i : Inode)
    → get_elem? is ino ≡ some i
    → held_by (get_elem? (update_inode g ino is) ino) ≡ (g i).holder
held-update g ino is i e =
    ap (λ o. held_by (get_elem? (put_inode g ino is o) ino)) e
    ∙ ap held_by (get_elem-set is ino (g i) (get_elem-some is ino i e))

release_holder-some : (f g : ℕ) (h : Option ℕ) → release_holder f h ≡ some g → h ≡ some g
release_holder-some f g none e = e
release_holder-some f g (some x) e = ground arith

release_holder_other :
    (f g : ℕ) (h : Option ℕ) → h ≡ some g → ¬ (f ≡ g) → release_holder f h ≡ some g
release_holder_other f g none e ne = e
release_holder_other f g (some x) e ne = ground arith

module _ (dir : Dict) (heap : List Stream) (files : List ℕ) (inodes : List Inode)
    (h : Inv dir heap files inodes) where
  pub next-IsFree : IsFree (length files) heap
  next-IsFree o s e q = omega (arith, h.known o s (length files) e q)

  pub file-Inv : (ino : ℕ) → ino < length inodes → Inv dir heap (files ++ ino ∷ []) inodes
  file-Inv ino lt = record {
    entries = h.entries;
    inos = λ f j e. elim (get_elem-grown files ino f j e) [
      | inl old ↦ h.inos f j old
      | inr new ↦ omega (arith, new.1)
    ];
    bounded = λ j f e. omega (arith, h.bounded j f e, length-append files (ino ∷ []));
    known = λ o s f e q. omega (arith, h.known o s f e q, length-append files (ino ∷ []));
    held = λ o s f e q w.
        ap (holder_at inodes) (get_elem-append files (ino ∷ []) f (h.known o s f e q))
        ∙ h.held o s f e q w;
    distinct = h.distinct;
  }

  -- a new log, in place of the one that the path led to
  inode-Inv :
      (path : Text) (i : Inode)
      → i.holder ≡ none
      → Inv (assign path (length inodes) dir) heap files (inodes ++ i ∷ [])
  inode-Inv path i n = record {
    entries =
        assign-Below _ dir path (length inodes)
          (Below-grow (length inodes) _ dir (omega (arith, length-append inodes (i ∷ [])))
            h.entries)
          (omega (arith, length-append inodes (i ∷ [])));
    inos = λ f j e. omega (arith, h.inos f j e, length-append inodes (i ∷ []));
    bounded = λ j f e. h.bounded j f (held-grown i inodes j f n e);
    known = h.known;
    held = λ o s f e q w. grown (get_elem? files f) f (λ j e. h.inos f j e) (h.held o s f e q w);
    distinct = h.distinct;
  }
    where
      grown :
          (at : Option ℕ) (f : ℕ)
          → ((j : ℕ) → at ≡ some j → j < length inodes)
          → holder_at inodes at ≡ some f
          → holder_at (inodes ++ i ∷ []) at ≡ some f
      grown none f lt e = e
      grown (some j) f lt e = ap held_by (get_elem-append inodes (i ∷ []) j (lt j refl)) ∙ e

  -- A change of the inodes that leaves the locks of writers.
  inodes-Inv :
      (is : List Inode)
      → length is ≡ length inodes
      → ((j f : ℕ) → held_by (get_elem? is j) ≡ some f → f < length files)
      → ((o : ℕ) (s : Stream) (f j : ℕ)
          → get_elem? heap o ≡ some s
          → s.file ≡ some f
          → held_by (get_elem? inodes j) ≡ some f
          → held_by (get_elem? is j) ≡ some f)
      → Inv dir heap files is
  inodes-Inv is len bounded kept = record {
    entries = subst (λ n. Below n dir) (sym len) h.entries;
    inos = λ f j e. omega (arith, h.inos f j e, len);
    bounded = bounded;
    known = h.known;
    held = λ o s f e q w. still o s f e q (get_elem? files f) (h.held o s f e q w);
    distinct = h.distinct;
  }
    where
      still :
          (o : ℕ) (s : Stream) (f : ℕ)
          → get_elem? heap o ≡ some s
          → s.file ≡ some f
          → (at : Option ℕ) → holder_at inodes at ≡ some f
          → holder_at is at ≡ some f
      still o s f e q none held = held
      still o s f e q (some j) held = kept o s f j e q held

  -- a lock that nobody has is taken
  pub lock-Inv :
      (f ino : ℕ)
      → get_elem? files f ≡ some ino
      → held_by (get_elem? inodes ino) ≡ none
      → Inv dir heap files (update_inode (λ i. record i { holder = some f }) ino inodes)
  lock-Inv f ino at unheld =
      inodes-Inv _ (length-update _ ino inodes)
        (λ j g e. elim (update-cases (λ i. record i { holder = some f }) ino inodes j) [
          | inl same ↦ h.bounded j g (sym same ∙ e)
          | inr new ↦
              subst (λ k. k < length files) (some-injective f g (sym new.3 ∙ e))
                (get_elem-some files f ino at)
        ])
        (λ o s g j e q held. elim (update-cases (λ i. record i { holder = some f }) ino inodes j) [
          | inl same ↦ same ∙ held
          | inr new ↦ absurd (cc (sym held ∙ ap (λ k. held_by (get_elem? inodes k)) new.2 ∙ unheld))
        ])

  -- a file that no object has is closed
  pub unlock-Inv :
      (f ino : ℕ)
      → IsFree f heap
      → Inv dir heap files
          (update_inode (λ i. record i { holder = release_holder f i.holder }) ino inodes)
  unlock-Inv f ino free =
      inodes-Inv _ (length-update _ ino inodes)
        (λ j g e.
          elim (update-cases (λ i. record i { holder = release_holder f i.holder }) ino inodes j) [
            | inl same ↦ h.bounded j g (sym same ∙ e)
            | inr new ↦
                h.bounded j g
                  (ap held_by new.1 ∙ release_holder-some f g (new.0).holder (sym new.3 ∙ e))
          ])
        (λ o s g j e q held.
          elim (update-cases (λ i. record i { holder = release_holder f i.holder }) ino inodes j) [
            | inl same ↦ same ∙ held
            | inr new ↦
                new.3
                ∙ release_holder_other f g (new.0).holder (sym (ap held_by new.1) ∙ held)
                    (λ eq. free o s e (q ∙ ap some (sym eq)))
          ])

  pub log-Inv :
      (log : LogFile) (ino : ℕ)
      → Inv dir heap files (update_inode (λ i. record i { log = log }) ino inodes)
  log-Inv log ino =
      inodes-Inv _ (length-update _ ino inodes) (λ j g e. h.bounded j g (sym (same_lock j) ∙ e))
        (λ o s g j e q held. same_lock j ∙ held)
    where
      same_lock :
          (j : ℕ)
          → held_by (get_elem? (update_inode (λ i. record i { log = log }) ino inodes) j)
            ≡ held_by (get_elem? inodes j)
      same_lock j = elim (update-cases (λ i. record i { log = log }) ino inodes j) [
        | inl same ↦ same
        | inr new ↦ new.3 ∙ sym (ap held_by new.1)
      ]

  -- a new object, on a file that no object has
  pub object-Inv :
      (s : Stream) (f : ℕ)
      → s.file ≡ some f
      → IsFree f heap
      → f < length files
      → (s.owner ≡ true → holder_at inodes (get_elem? files f) ≡ some f)
      → Inv dir (heap ++ s ∷ []) files inodes
  object-Inv s f at free lt lock = record {
    entries = h.entries;
    inos = h.inos;
    bounded = h.bounded;
    known = λ o t g e q. elim (get_elem-grown heap s o t e) [
      | inl old ↦ h.known o t g old q
      | inr new ↦ subst (λ n. n < length files) (file_of t g q new.1) lt
    ];
    held = λ o t g e q w. elim (get_elem-grown heap s o t e) [
      | inl old ↦ h.held o t g old q w
      | inr new ↦
          subst (λ n. holder_at inodes (get_elem? files n) ≡ some n) (file_of t g q new.1)
            (lock (ap (λ (u : Stream). u.owner) (sym new.1) ∙ w))
    ];
    distinct = λ o p t u g e e' q q'. elim (get_elem-grown heap s o t e) [
      | inl old ↦ elim (get_elem-grown heap s p u e') [
        | inl old' ↦ h.distinct o p t u g old old' q q'
        | inr new' ↦ absurd (free o t old (q ∙ ap some (sym (file_of u g q' new'.1))))
      ]
      | inr new ↦ elim (get_elem-grown heap s p u e') [
        | inl old' ↦ absurd (free p u old' (q' ∙ ap some (sym (file_of t g q new.1))))
        | inr new' ↦ new.0 ∙ sym new'.0
      ]
    ];
  }
    where
      file_of : (t : Stream) (g : ℕ) → t.file ≡ some g → t ≡ s → f ≡ g
      file_of t g q e = some-injective f g (sym at ∙ ap (λ (u : Stream). u.file) (sym e) ∙ q)

  -- objects that have files and roles only as they had before
  pub heap-Inv :
      (new : List Stream)
      → ((p : ℕ) (u : Stream) (f : ℕ)
          → get_elem? new p ≡ some u
          → u.file ≡ some f
          → (v : Stream) × (get_elem? heap p ≡ some v)
            × (v.file ≡ some f)
            × (u.owner ≡ true → v.owner ≡ true))
      → Inv dir new files inodes
  heap-Inv new old = record {
    entries = h.entries;
    inos = h.inos;
    bounded = h.bounded;
    known = λ o s f e q. let r = old o s f e q in h.known o r.0 f r.1 r.2;
    held = λ o s f e q w. let r = old o s f e q in h.held o r.0 f r.1 r.2 (r.3 w);
    distinct = λ o p s t f e e' q q'.
        let r = old o s f e q in
        let r' = old p t f e' q' in h.distinct o p r.0 r'.0 f r.1 r'.1 r.2 r'.2;
  }

  pub set-Inv :
      (o : ℕ) (s t : Stream)
      → get_elem? heap o ≡ some s
      → ((f : ℕ) → t.file ≡ some f → s.file ≡ some f)
      → (t.owner ≡ true → s.owner ≡ true)
      → Inv dir (set heap o t) files inodes
  set-Inv o s t at file owner = heap-Inv (set heap o t) (λ p u f e q.
      elim (get_elem-set_cases heap o t p u e) [
        | inl new ↦ (
          s,
          ap (get_elem? heap) new.0 ∙ at,
          file f (ap (λ (x : Stream). x.file) (sym new.1) ∙ q),
          λ w. owner (ap (λ (x : Stream). x.owner) (sym new.1) ∙ w),
        )
        | inr same ↦ (u, same.1, q, λ w. w)
      ])

  -- the file of an object that is closed
  pub set-IsFree :
      (o : ℕ) (s t : Stream) (f : ℕ)
      → get_elem? heap o ≡ some s
      → s.file ≡ some f
      → t.file ≡ none
      → IsFree f (set heap o t)
  set-IsFree o s t f at file closed p u e q = elim (get_elem-set_cases heap o t p u e) [
    | inl new ↦ cc (sym q ∙ ap (λ (x : Stream). x.file) new.1 ∙ closed)
    | inr same ↦ same.0 (h.distinct p o u s f same.1 at q file)
  ]

  -- Two writers whose files lead to one log are one object.
  pub writers-eq :
      (o p : ℕ) (s t : Stream) (f g : ℕ)
      → get_elem? heap o ≡ some s
      → get_elem? heap p ≡ some t
      → s.file ≡ some f
      → t.file ≡ some g
      → s.owner ≡ true
      → t.owner ≡ true
      → get_elem? files f ≡ get_elem? files g
      → o ≡ p
  writers-eq o p s t f g e e' q q' w w' same =
      let eq =
        some-injective f g
          (sym (h.held o s f e q w) ∙ ap (holder_at inodes) same ∙ h.held p t g e' q' w') in
      h.distinct o p s t f e e' q (q' ∙ ap some (sym eq))

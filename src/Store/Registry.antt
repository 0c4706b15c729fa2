-- ===== src/Store/Registry.antt =====
-- One object per name: what `create` returns is what the store has open under the name.
use durastream.Common.{
  ℕ, ◌≡◌, refl, sym, ap, ◌∙◌, subst, Bool, false, Option, none, some, List, [], ◌∷◌, get_elem?, inl,
  inr, Text,
}
use durastream.Errors.{Result, ok, err, Result-cases}
use durastream.Exec.{Exec, continue, pure, lift}
use durastream.Disk.{Answer, done, fail, short}
use durastream.Names.{check_name}
use durastream.Codec.{Zlib}
use durastream.Dict.{lookup, lookup-assign}
use durastream.Store.{World, asked}
use durastream.Store.Files.{fsync_dir, lock_for_removal, open_role}
use durastream.Store.Ops.{row, check_type}
use durastream.Store.Methods.{
  register, open_stream, init_stream, insert, create_new, create_row, create_opened, create,
  open_opened, open_existing, remove_under, type_of,
}

-- If an object is returned, it is the one that is open under `name`.
abbrev Registers : Text → Result ℕ × World → Type 0
Registers name (ok o, w) = lookup name w.opened ≡ some o
Registers name (err e, w) = Unit {0}

module _ (name : Text) where
  continue-Registers :
      {A : Type 0} (f : A → Exec World ℕ) (r : Result A × World)
      → ((a : A) (w : World) → Registers name (f a w))
      → Registers name (continue f r)
  continue-Registers f (ok a, w) h = h a w
  continue-Registers f (err e, w) h = tt

  second :
      (os : List Answer) (o : ℕ) (w : World)
      → lookup name w.opened ≡ some o
      → Registers name
          (continue (λ _. pure o) (asked os (λ u. (ok tt, record u { durable_dir = u.dir })) w))
  second [] o w h = h
  second (done ∷ os) o w h = h
  second (fail ∷ os) o w h = tt
  second (short k ∷ os) o w h = h

  first :
      (os : List Answer) (o : ℕ) (w : World)
      → lookup name w.opened ≡ some o
      → Registers name (
          continue
            (λ _. pure o)
            (asked os (λ v. asked v.os (λ u. (ok tt, record u { durable_dir = u.dir })) v) w))
  first [] o w h = second w.os o w h
  first (done ∷ os) o w h = second os o (record w { os = os }) h
  first (fail ∷ os) o w h = tt
  first (short k ∷ os) o w h = second os o (record w { os = os }) h

  sync-Registers :
      (o : ℕ) (w : World)
      → lookup name w.opened ≡ some o
      → Registers name (continue (λ _. pure o) (fsync_dir w))
  unfolding fsync_dir
  sync-Registers o w h = first w.os o w h

  module _ ⦃z : Zlib⦄ where
    open_stream-Registers :
        (content_type : Text) (closed : Bool) (w : World)
        → Registers name (open_stream name content_type closed w)
    unfolding open_stream
    open_stream-Registers content_type closed w = continue-Registers _ (open_role _ w) (λ r v.
        continue-Registers (register name) (init_stream name content_type closed r.0 r.1 v)
          (λ o u. lookup-assign name o u.opened))

    insert-Registers :
        (content_type : Text) (w : World) → Registers name (insert name content_type w)
    insert-Registers content_type w = continue-Registers _ _ (λ rows v.
        after (open_stream name content_type false v) (open_stream-Registers content_type false v))
      where
        after :
            (r : Result ℕ × World)
            → Registers name r
            → Registers name (continue (λ o. λ u. continue (λ _. pure o) (fsync_dir u)) r)
        after (ok o, u) h = sync-Registers o u h
        after (err e, u) h = tt

    create_new-Registers :
        (content_type : Option Text) (w : World) → Registers name (create_new name content_type w)
    create_new-Registers content_type w =
        continue-Registers _ (lock_for_removal name _ w) (λ guard v.
          continue-Registers _ (remove_under _ guard v) (λ removed u. insert-Registers _ u))

    create_row-Registers :
        (content_type : Option Text) (o : Option (Text × Bool)) (w : World)
        → Registers name (create_row name content_type o w)
    create_row-Registers content_type none w = create_new-Registers content_type w
    create_row-Registers content_type (some (existing, closed)) w =
        continue-Registers _ (lift (check_type existing content_type) w)
          (λ t v. open_stream-Registers existing closed v)

    checked-Registers :
        (r : Result (Unit {0})) (o : ℕ) (w : World)
        → lookup name w.opened ≡ some o
        → Registers name (continue (λ _. pure o) (r, w))
    checked-Registers (ok t) o w h = h
    checked-Registers (err e) o w h = tt

    create_opened-Registers :
        (content_type : Option Text) (found : Option ℕ) (w : World)
        → lookup name w.opened ≡ found
        → Registers name (create_opened name content_type found w)
    create_opened-Registers content_type (some o) w e =
        checked-Registers (check_type (type_of (get_elem? w.heap o)) content_type) o w e
    create_opened-Registers content_type none w e =
        continue-Registers _ (row name w) (λ r v. create_row-Registers content_type r v)

    create-Registers :
        (content_type : Option Text) (w : World) → Registers name (create name content_type w)
    unfolding create
    create-Registers content_type w =
        continue-Registers _ (lift (check_name name) w)
          (λ n v. create_opened-Registers content_type (lookup name v.opened) v refl)

    create-name :
        (content_type : Option Text) (w w' : World) (o : ℕ)
        → create name content_type w ≡ (ok o, w')
        → (n : Text) × (check_name name ≡ ok n)
    unfolding create
    create-name content_type w w' o e = elim (Result-cases (check_name name)) [
      | inl h ↦ h
      | inr h ↦ absurd (
          cc (
            ap (λ (q : Result ℕ × World). q.0)
              (sym (
                  ap
                    (λ r.
                      continue (λ _ v. create_opened name content_type (lookup name v.opened) v)
                        (r, w))
                    h.1)
                ∙ e)))
    ]

    -- If `create` of a store returns an object, then `open` of the name returns the same object, and
    -- so does another `create` that asks for no type, and both leave everything as it is.
    pub create-idempotent :
        (content_type : Option Text) (w w' : World) (o : ℕ)
        → create name content_type w ≡ (ok o, w')
        → (open_existing name w' ≡ (ok o, w')) × (create name none w' ≡ (ok o, w'))
    unfolding create open_existing check_type
    create-idempotent content_type w w' o e =
        let h = subst (Registers name) e (create-Registers content_type w) in
        let n = create-name content_type w w' o e in
        (
          ap (λ found. open_opened name found w') h,
          ap (λ r. continue (λ _ v. create_opened name none (lookup name v.opened) v) (r, w')) n.1
              ∙ ap (λ found. create_opened name none found w') h,
        )

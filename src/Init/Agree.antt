-- ===== src/Init/Agree.antt =====
-- Undoing one file: the moves back agree with the files before, at the paths that a rollback reads.
use graphloom.Base.{
  ℕ, ◌<◌, ◌≡◌, ◌≢◌, ◌⊎◌, sym, ap, subst, Option, none, some, Text, codes, ok, arith, inl, inr,
  lookup, length,
}
use graphloom.Init.Disk.{FilePath, Disk, path_eq, path_beq_iff, rename}
use graphloom.Init.Transaction.{restore_backup}
use graphloom.Init.Views.{view, view-rename}
use graphloom.Init.Names.{IsSibling, IsSibling-unique, staged≢backup}
use graphloom.Init.Rollback.{undo, map_io_err-ok}
use graphloom.Init.Moves.{IsMove}

module _ (uuid : ℕ → Text) where
  -- A path that no temporary file of the code can have.
  abbrev pub NotTemporary : FilePath → Type 0
  NotTemporary p =
      ((n : ℕ) → ¬ (IsSibling uuid (codes "tmp") n p))
      × ((n : ℕ) → ¬ (IsSibling uuid (codes "backup") n p))

  -- The paths whose content a rollback reads or restores.
  abbrev pub IsKept : ℕ → FilePath → Type 0
  IsKept next p = NotTemporary p ⊎ ((m : ℕ) × (m < next) × IsSibling uuid (codes "backup") m p)

  abbrev pub Agree : ℕ → (f g : FilePath → Option Text) → Type 0
  Agree next f g = (p : FilePath) → IsKept next p → f p ≡ g p

  staged≢sibling :
      (m n : ℕ) (staged p : FilePath)
      → IsSibling uuid (codes "tmp") m staged
      → IsSibling uuid (codes "backup") n p
      → staged ≢ p
  staged≢sibling m n staged p s h e =
      staged≢backup uuid m n staged s (subst (IsSibling uuid (codes "backup") n) (sym e) h)

  staged≢kept :
      (m next : ℕ) (staged p : FilePath)
      → IsSibling uuid (codes "tmp") m staged
      → IsKept next p
      → staged ≢ p
  staged≢kept m next staged p s (inl h) e = h.0 m (subst (IsSibling uuid (codes "tmp") m) e s)
  staged≢kept m next staged p s (inr (n, l, h)) e = staged≢sibling m n staged p s h e

  module _ (width : (n m : ℕ) → length (uuid n) ≡ length (uuid m))
      (unique : (n m : ℕ) → uuid n ≡ uuid m → n ≡ m) where
    -- The next backup is none of these.
    backup≢kept :
        (next : ℕ) (backup p : FilePath)
        → IsSibling uuid (codes "backup") next backup
        → IsKept next p
        → backup ≢ p
    backup≢kept next backup p s (inl h) e =
        h.1 next (subst (IsSibling uuid (codes "backup") next) e s)
    backup≢kept next backup p s (inr (m, l, h)) e = absurd (
        omega (
          arith,
          IsSibling-unique uuid width unique (codes "backup") m next p h
              (subst (IsSibling uuid (codes "backup") next) e s),
        ))

    -- Once the backup has moved back, the files are as they were.
    pub restore_backup-Agree :
        (target : FilePath) (backup : Option FilePath) (d d1 : Disk)
        → IsMove uuid target d (ok backup, d1)
        → (restore_backup target backup d1).0 ≡ ok tt
        → Agree d.next_uuid (view (restore_backup target backup d1).1) (view d)
    unfolding restore_backup
    restore_backup-Agree target none d d1 (_, e, _) h p kept = ap (λ files. lookup p files) e
    restore_backup-Agree target (some backup) d d1 (content, there, drawn, moved, _) h p kept =
        let (c, back, after) =
          view-rename backup target d1
            (map_io_err-ok "restore managed file backup" target (rename backup target d1).0 h) in
        ground (
          arith,
          after p,
          moved p,
          moved backup,
          back,
          there,
          path_beq_iff backup backup,
          path_beq_iff target p,
          path_beq_iff backup p,
          backup≢kept d.next_uuid backup p drawn kept,
        )

    -- Undoing the publication of a staged file gives the files before it.
    pub undo-Agree :
        (target staged : FilePath) (backup : Option FilePath) (d d1 : Disk) (m : ℕ)
        → NotTemporary target
        → IsSibling uuid (codes "tmp") m staged
        → IsMove uuid target d (ok backup, d1)
        → (rename staged target d1).0 ≡ ok tt
        → Agree d.next_uuid
            (undo (record { target = target; backup = backup }) (view (rename staged target d1).1))
            (view d)
    unfolding undo
    undo-Agree target staged none d d1 m plain s (missing, e, _) h p kept =
        let (c, _, after) = view-rename staged target d1 h in
        ground (
          arith,
          after p,
          missing,
          ap (λ files. lookup p files) e,
          path_beq_iff target p,
          path_beq_iff staged p,
          staged≢kept m d.next_uuid staged p s kept,
        )
    undo-Agree target staged (some backup) d d1 m plain s (content, there, drawn, moved, _) h p
          kept =
        let (c, _, after) = view-rename staged target d1 h in
        ground (
          arith,
          after p,
          after backup,
          moved p,
          moved backup,
          there,
          path_beq_iff target p,
          path_beq_iff staged p,
          path_beq_iff backup p,
          path_beq_iff backup backup,
          path_beq_iff target backup,
          path_beq_iff staged backup,
          staged≢kept m d.next_uuid staged p s kept,
          backup≢kept d.next_uuid backup p drawn kept,
          (λ (e : target ≡ backup).
              plain.1 d.next_uuid
                (subst (IsSibling uuid (codes "backup") d.next_uuid) (sym e) drawn)),
          staged≢sibling m d.next_uuid staged backup s drawn,
        )

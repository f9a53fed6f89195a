-- ===== src/Init/Written.antt =====
-- stage_managed_files where it succeeds: the staged files hold the contents of the plan.
use graphloom.Base.{
  ℕ, suc, ◌≡◌, ◌∙◌, ◌⊎◌, sym, ap, subst, Bool, true, false, not, ◌&&◌, some, List, [], ◌∷◌, ◌++◌,
  Text, codes, ok, if◌then◌else◌, ◌==◌, arith, inl, inr, Bool-cases, Result-cases, lookup,
  lookup-insert, ok-injective,
}
use graphloom.Init.Disk.{
  FilePath, Disk, path_eq, exists, try_exists, create_new, write_all, sync_all,
}
use graphloom.Init.Transaction.{
  Action, ManagedFilePlan, StagedManagedFile, then_do, io_call, or_cleanup, write_staged_file,
  write_new, keep_or_stage, stage_file, temporary_sibling,
}
use graphloom.Init.Views.{view}
use graphloom.Init.Names.{IsSibling, IsSibling-temporary_sibling}
use graphloom.Init.Moves.{then_do-cases, io_call-ok}

-- One file gets a content, and nothing else of the disk changes but its faults.
pub record Writes (path : FilePath) (content : Text) (d d' : Disk) : Type 0 where
  pub seen : (q : FilePath) → view d' q ≡ (if path == q then some content else view d q)
  pub same_uuid : d'.next_uuid ≡ d.next_uuid
  pub same_directories : d'.directories ≡ d.directories

create_new-Writes :
    (path : FilePath) (d : Disk)
    → (create_new path d).0 ≡ ok tt
    → Writes path [] d (create_new path d).1
unfolding create_new
create_new-Writes path d h = record {
  seen = λ q. ground (arith, h, lookup-insert path q [] d.files);
  same_uuid = ground (arith, h);
  same_directories = ground (arith, h);
}

write_all-Writes :
    (path : FilePath) (content : Text) (d : Disk)
    → (write_all path content d).0 ≡ ok tt
    → Writes path content d (write_all path content d).1
unfolding write_all
write_all-Writes path content d h = record {
  seen = λ q. ground (arith, h, lookup-insert path q content d.files);
  same_uuid = ground (arith, h);
  same_directories = ground (arith, h);
}

or_cleanup-ok :
    (path : FilePath) (call : Action (Unit {0})) (d : Disk)
    → (or_cleanup path call d).0 ≡ ok tt
    → ((call d).0 ≡ ok tt) × ((or_cleanup path call d).1 ≡ (call d).1)
or_cleanup-ok path call d h = elim (Result-cases (call d).0) [
  | inl (a, e) ↦ (ground (arith, e), ground (arith, e))
  | inr (k, e) ↦ ground (arith, e, h)
]

sync_all-keeps :
    (path : FilePath) (d : Disk)
    → ((sync_all path d).1.files ≡ d.files)
      × ((sync_all path d).1.next_uuid ≡ d.next_uuid)
      × ((sync_all path d).1.directories ≡ d.directories)
unfolding sync_all
sync_all-keeps path d = (ground arith, ground arith, ground arith)

pub then_do-ok :
    {A B : Type 0} (first : Action A) (rest : A → Action B) (d : Disk) (b : B)
    → (then_do first rest d).0 ≡ ok b
    → (a : A) × ((first d).0 ≡ ok a)
      × (then_do first rest d ≡ rest a (first d).1)
      × ((rest a (first d).1).0 ≡ ok b)
then_do-ok first rest d b h = elim (then_do-cases first rest d) [
  | inl (a, e, same) ↦ (a, e, same, ap (λ r. r.0) (sym same) ∙ h)
  | inr (k, e, same) ↦ ground (arith, h, e)
]

pub write_staged_file-Writes :
    (path : FilePath) (content : Text) (d : Disk)
    → (write_staged_file path content d).0 ≡ ok tt
    → Writes path content d (write_staged_file path content d).1
unfolding write_staged_file
write_staged_file-Writes path content d h =
    let write =
      or_cleanup path (io_call "write staged managed file" path (write_all path content)) in
    let sync = or_cleanup path (io_call "sync staged managed file" path (sync_all path)) in
    let create = io_call "create staged managed file" path (create_new path) in
    let (_, e, same, h1) = then_do-ok create (λ _. then_do write (λ _. sync)) d tt h in
    let d1 = (create d).1 in
    let (_, e1, same1, h2) = then_do-ok write (λ _. sync) d1 tt h1 in
    let d2 = (write d1).1 in
    let made =
      create_new-Writes path d
        (io_call-ok "create staged managed file" path (create_new path) d tt e) in
    let (w, at_write) =
      or_cleanup-ok path (io_call "write staged managed file" path (write_all path content)) d1
        e1 in
    let wrote =
      write_all-Writes path content d1
        (io_call-ok "write staged managed file" path (write_all path content) d1 tt w) in
    let (s, at_sync) =
      or_cleanup-ok path (io_call "sync staged managed file" path (sync_all path)) d2 h2 in
    let (files, uuids, directories) = sync_all-keeps path d2 in
    let end : (then_do create (λ _. then_do write (λ _. sync)) d).1 ≡ (sync_all path d2).1 =
      ap (λ r. r.1) same ∙ ap (λ r. r.1) same1 ∙ at_sync in
    subst (Writes path content d) (sym end) (record {
      seen = λ q.
          ap (λ l. lookup q l) files
          ∙ ap (λ x. view x q) at_write
          ∙ ground (arith, wrote.seen q, made.seen q);
      same_uuid = uuids ∙ ap (λ x. x.next_uuid) at_write ∙ wrote.same_uuid ∙ made.same_uuid;
      same_directories =
          directories
          ∙ ap (λ x. x.directories) at_write
          ∙ wrote.same_directories
          ∙ made.same_directories;
    })

try_exists-ok :
    (path : FilePath) (d : Disk) (found : Bool)
    → (try_exists path d).0 ≡ ok found
    → (found ≡ exists path d)
      × ((try_exists path d).1.files ≡ d.files)
      × ((try_exists path d).1.next_uuid ≡ d.next_uuid)
      × ((try_exists path d).1.directories ≡ d.directories)
unfolding try_exists
try_exists-ok path d found h = (ground (arith, h), ground arith, ground arith, ground arith)

-- A file of the plan that is there and is not to be overwritten.
abbrev pub is_kept : Disk → ManagedFilePlan → Bool
is_kept d file = exists file.path d && not file.overwrite

module _ (uuid : ℕ → Text) where
  abbrev pub Keeps : Disk → Disk → Type 0
  Keeps d d' =
      (d'.files ≡ d.files) × (d'.next_uuid ≡ d.next_uuid) × (d'.directories ≡ d.directories)

  -- What the staging of one file leaves.
  pub record IsStagedAt (file : ManagedFilePlan) (staged now : List StagedManagedFile) (d d' : Disk)
      : Type 0 where
    pub path : FilePath
    pub entered : now ≡ staged ++ record { target = file.path; staged = path } ∷ []
    pub drawn : IsSibling uuid (codes "tmp") d.next_uuid path
    pub seen : (q : FilePath) → view d' q ≡ (if path == q then some file.content else view d q)
    pub next : d'.next_uuid ≡ suc d.next_uuid
    pub same_directories : d'.directories ≡ d.directories

  directories-temporary_sibling :
      (target : FilePath) (kind : Text) (d : Disk)
      → (temporary_sibling uuid target kind d).1.directories ≡ d.directories
  unfolding temporary_sibling
  directories-temporary_sibling target kind d = ground arith

  write_new-ok :
      (file : ManagedFilePlan) (staged now : List StagedManagedFile) (path : FilePath) (d : Disk)
      → (write_new uuid file staged path d).0 ≡ ok now
      → ((write_staged_file path file.content d).0 ≡ ok tt)
        × (now ≡ staged ++ record { target = file.path; staged = path } ∷ [])
        × ((write_new uuid file staged path d).1 ≡ (write_staged_file path file.content d).1)
  write_new-ok file staged now path d h =
      elim (Result-cases (write_staged_file path file.content d).0) [
        | inl (a, e) ↦ (ground (arith, e), ground (arith, h, e), ground (arith, e))
        | inr (k, e) ↦ ground (arith, h, e)
      ]

  stage_new-IsStagedAt :
      (file : ManagedFilePlan) (staged now : List StagedManagedFile) (d : Disk)
      → (keep_or_stage uuid file staged false d).0 ≡ ok now
      → IsStagedAt file staged now d (keep_or_stage uuid file staged false d).1
  stage_new-IsStagedAt file staged now d h =
      let draw = temporary_sibling uuid file.path (codes "tmp") in
      let (path, e, same, k) = then_do-ok draw (write_new uuid file staged) d now h in
      let (sibling, files, next) =
        IsSibling-temporary_sibling uuid file.path (codes "tmp") d path e in
      let (wrote, entered, at_write) = write_new-ok file staged now path (draw d).1 k in
      let w = write_staged_file-Writes path file.content (draw d).1 wrote in
      subst (IsStagedAt file staged now d) (sym (ap (λ r. r.1) same ∙ at_write)) (record {
        path = path;
        entered = entered;
        drawn = sibling;
        seen = λ q.
            w.seen q
            ∙ ap (λ o. if path == q then some file.content else o) (ap (λ l. lookup q l) files);
        next = w.same_uuid ∙ next;
        same_directories =
            w.same_directories ∙ directories-temporary_sibling file.path (codes "tmp") d;
      })

  IsStagedAt-Keeps :
      (file : ManagedFilePlan) (staged now : List StagedManagedFile) (d d0 d' : Disk)
      → Keeps d d0
      → IsStagedAt file staged now d0 d'
      → IsStagedAt file staged now d d'
  IsStagedAt-Keeps file staged now d d0 d' (files, next, directories) s = record {
    path = s.path;
    entered = s.entered;
    drawn = subst (λ n. IsSibling uuid (codes "tmp") n s.path) next s.drawn;
    seen = λ q.
        s.seen q
        ∙ ap (λ o. if s.path == q then some file.content else o) (ap (λ l. lookup q l) files);
    next = s.next ∙ ap suc next;
    same_directories = s.same_directories ∙ directories;
  }

  pub stage_file-ok :
      (file : ManagedFilePlan) (staged now : List StagedManagedFile) (d : Disk)
      → (stage_file uuid file staged d).0 ≡ ok now
      → (is_kept d file ≡ true) × (now ≡ staged) × Keeps d (stage_file uuid file staged d).1
        ⊎ (is_kept d file ≡ false) × IsStagedAt file staged now d (stage_file uuid file staged d).1
  unfolding stage_file
  stage_file-ok file staged now d h =
      let check = io_call "check managed file" file.path (try_exists file.path) in
      let (found, e, same, k) =
        then_do-ok check (λ found. keep_or_stage uuid file staged (found && not file.overwrite)) d
          now h in
      let (is_found, files, next, directories) =
        try_exists-ok file.path d found
          (io_call-ok "check managed file" file.path (try_exists file.path) d found e) in
      let at_end = ap (λ r. r.1) same in
      elim (Bool-cases (found && not file.overwrite)) [
        | inl keep ↦
            let stay : keep_or_stage uuid file staged (found && not file.overwrite) (check d).1
                ≡ (ok staged, (check d).1) =
              ap (λ b. keep_or_stage uuid file staged b (check d).1) keep in
            inl (
              ground (arith, keep, is_found),
              ok-injective (sym k ∙ ap (λ r. r.0) stay),
              subst (Keeps d) (sym (at_end ∙ ap (λ r. r.1) stay)) (files, next, directories),
            )
        | inr new ↦
            let go = ap (λ b. keep_or_stage uuid file staged b (check d).1) new in
            inr (
              ground (arith, new, is_found),
              subst (IsStagedAt file staged now d) (sym (at_end ∙ ap (λ r. r.1) go)) (
                  IsStagedAt-Keeps file staged now d (check d).1
                    (keep_or_stage uuid file staged false (check d).1).1 (files, next, directories)
                    (stage_new-IsStagedAt file staged now (check d).1
                      (ap (λ r. r.0) (sym go) ∙ k))),
            )
      ]

-- ===== src/Init/Jobs.antt =====
-- stage_managed_files where it succeeds: which files it stages, and what the staged files hold.
use graphloom.Base.{
  ℕ, suc, ◌≤◌, ◌<◌, ◌≡◌, ◌∙◌, sym, ap, refl, subst, false, some, List, [], ◌∷◌, ◌++◌, Text, codes,
  ok, if◌then◌else◌, ◌==◌, any, arith, inl, inr, Bool-cases, lookup, length, append-nil,
  append_assoc, ok-injective,
}
use graphloom.Init.Disk.{FilePath, Disk, path_eq, path_beq_iff}
use graphloom.Init.Transaction.{ManagedFilePlan, StagedManagedFile, stage_file, stage_each}
use graphloom.Init.Views.{view}
use graphloom.Init.Names.{IsSibling, IsSibling-unique}
use graphloom.Init.Agree.{NotTemporary}
use graphloom.Init.Staging.{ArePlain}
use graphloom.Init.Written.{is_kept, stage_file-ok, then_do-ok}

-- The files of the plan that are published: those that are not there, or are to be overwritten.
abbrev pub chosen : Disk → List ManagedFilePlan → List ManagedFilePlan
chosen made [] = []
chosen made (file ∷ files) =
    if is_kept made file then chosen made files else file ∷ chosen made files

is_kept-same :
    (d made : Disk) (file : ManagedFilePlan)
    → view d file.path ≡ view made file.path
    → d.directories ≡ made.directories
    → is_kept d file ≡ is_kept made file
is_kept-same d made file e k =
    let same : any (λ q. q == file.path) d.directories
        ≡ any (λ q. q == file.path) made.directories =
      ap (any (λ q. q == file.path)) k in
    ground (arith, e, same)

module _ (uuid : ℕ → Text) where
  -- The staged files hold the contents of the jobs, under names that are drawn one after the other.
  abbrev pub AreWritten :
      (low next : ℕ) → Disk → List StagedManagedFile → List ManagedFilePlan → Type 0
  AreWritten low next d [] [] = low ≤ next
  AreWritten low next d (file ∷ files) (job ∷ jobs) =
      (file.target ≡ job.path)
      × (view d file.staged ≡ some job.content)
      × NotTemporary uuid job.path
      × ((m : ℕ) × (low ≤ m)
          × IsSibling uuid (codes "tmp") m file.staged
          × AreWritten (suc m) next d files jobs)
  AreWritten low next d _ _ = ⊥

  AreWritten-le :
      (low next : ℕ) (d : Disk) (files : List StagedManagedFile) (jobs : List ManagedFilePlan)
      → AreWritten low next d files jobs
      → low ≤ next
  AreWritten-le low next d [] [] h = h
  AreWritten-le low next d (file ∷ files) (job ∷ jobs) (_, _, _, (m, l, _, h)) =
      omega (arith, l, AreWritten-le (suc m) next d files jobs h)
  AreWritten-le low next d [] (job ∷ jobs) h = elim h [ ]
  AreWritten-le low next d (file ∷ files) [] h = elim h [ ]

  pub AreWritten-frame :
      (low next : ℕ) (d d' : Disk) (files : List StagedManagedFile) (jobs : List ManagedFilePlan)
      → ((m : ℕ) (q : FilePath)
          → low ≤ m
          → m < next
          → IsSibling uuid (codes "tmp") m q
          → view d' q ≡ view d q)
      → AreWritten low next d files jobs
      → AreWritten low next d' files jobs
  AreWritten-frame low next d d' [] [] same h = h
  AreWritten-frame low next d d' (file ∷ files) (job ∷ jobs) same (a, b, c, (m, l, s, h)) =
      let last = AreWritten-le (suc m) next d files jobs h in
      (
        a,
        same m file.staged l (omega (arith, last)) s ∙ b,
        c,
        (
          m,
          l,
          s,
          AreWritten-frame (suc m) next d d' files jobs (λ n q k. same n q (omega (arith, l, k))) h,
        ),
      )
  AreWritten-frame low next d d' [] (job ∷ jobs) same h = elim h [ ]
  AreWritten-frame low next d d' (file ∷ files) [] same h = elim h [ ]

  AreWritten-snoc :
      (low next : ℕ) (d : Disk) (files : List StagedManagedFile) (jobs : List ManagedFilePlan)
      (file : StagedManagedFile) (job : ManagedFilePlan)
      → file.target ≡ job.path
      → view d file.staged ≡ some job.content
      → NotTemporary uuid job.path
      → IsSibling uuid (codes "tmp") next file.staged
      → AreWritten low next d files jobs
      → AreWritten low (suc next) d (files ++ file ∷ []) (jobs ++ job ∷ [])
  AreWritten-snoc low next d [] [] file job a b c s h = (a, b, c, (next, h, s, omega arith))
  AreWritten-snoc low next d (x ∷ files) (y ∷ jobs) file job a b c s (p, q, r, (m, l, t, h)) =
      (p, q, r, (m, l, t, AreWritten-snoc (suc m) next d files jobs file job a b c s h))
  AreWritten-snoc low next d [] (y ∷ jobs) file job a b c s h = elim h [ ]
  AreWritten-snoc low next d (x ∷ files) [] file job a b c s h = elim h [ ]

  module _ (width : (n m : ℕ) → length (uuid n) ≡ length (uuid m))
      (unique : (n m : ℕ) → uuid n ≡ uuid m → n ≡ m) where
    pub tmp≢tmp :
        (m n : ℕ) (p q : FilePath)
        → m < n
        → IsSibling uuid (codes "tmp") m p
        → IsSibling uuid (codes "tmp") n q
        → (q == p) ≡ false
    tmp≢tmp m n p q l a b = elim (Bool-cases (q == p)) [
      | inr other ↦ other
      | inl same ↦
          let back = subst (IsSibling uuid (codes "tmp") n) ((path_beq_iff q p).0 same) b in
          absurd (omega (arith, l, IsSibling-unique uuid width unique (codes "tmp") m n p a back))
    ]

    -- What the staging of a list of files leaves, where it succeeds.
    pub stage_each-AreWritten :
        (made : Disk) (low : ℕ) (files : List ManagedFilePlan) (staged now : List StagedManagedFile)
        (jobs : List ManagedFilePlan) (d : Disk)
        → ArePlain uuid files
        → ((p : FilePath) → NotTemporary uuid p → view d p ≡ view made p)
        → d.directories ≡ made.directories
        → AreWritten low d.next_uuid d staged jobs
        → (stage_each uuid files staged d).0 ≡ ok now
        → AreWritten low
            (stage_each uuid files staged d).1.next_uuid
            (stage_each uuid files staged d).1
            now
            (jobs ++ chosen made files)
          × ((p : FilePath)
              → NotTemporary uuid p
              → view (stage_each uuid files staged d).1 p ≡ view made p)
    unfolding stage_each
    stage_each-AreWritten made low [] staged now jobs d plain old dirs h e = (
      subst (λ l. AreWritten low d.next_uuid d l (jobs ++ [])) (ok-injective e)
          (subst (AreWritten low d.next_uuid d staged) (sym (append-nil jobs)) h),
      old,
    )
    stage_each-AreWritten made low (file ∷ files) staged now jobs d (plain, more) old dirs h e =
        let (mid, e1, same, rest) =
          then_do-ok (stage_file uuid file staged) (stage_each uuid files) d now e in
        let d1 = (stage_file uuid file staged d).1 in
        let kept = is_kept-same d made file (old file.path plain) dirs in
        subst
          (λ r.
            AreWritten low r.1.next_uuid r.1 now (jobs ++ chosen made (file ∷ files))
            × ((p : FilePath) → NotTemporary uuid p → view r.1 p ≡ view made p))
          (sym same)
          (elim (stage_file-ok uuid file staged mid d e1) [
            | inl (keep, stay, (f, n, k)) ↦
                let left : chosen made (file ∷ files) ≡ chosen made files =
                  ground (arith, keep, kept) in
                let here : AreWritten low d1.next_uuid d1 mid jobs =
                  subst (λ l. AreWritten low d1.next_uuid d1 l jobs) (sym stay)
                    (subst (λ m. AreWritten low m d1 staged jobs) (sym n)
                      (AreWritten-frame low d.next_uuid d d1 staged jobs
                        (λ _ q _ _ _. ap (λ l. lookup q l) f) h)) in
                subst
                  (λ c.
                    AreWritten low (stage_each uuid files mid d1).1.next_uuid
                      (stage_each uuid files mid d1).1 now (jobs ++ c)
                    × ((p : FilePath)
                        → NotTemporary uuid p
                        → view (stage_each uuid files mid d1).1 p ≡ view made p))
                  (sym left)
                  (stage_each-AreWritten made low files mid now jobs d1 more
                    (λ p np. ap (λ l. lookup p l) f ∙ old p np) (k ∙ dirs) here rest)
            | inr (new, s) ↦
                let taken : chosen made (file ∷ files) ≡ file ∷ chosen made files =
                  ground (arith, new, kept) in
                let others =
                  AreWritten-frame low d.next_uuid d d1 staged jobs
                    (λ m q _ l sib.
                      ground (arith, s.seen q, tmp≢tmp m d.next_uuid q s.path l sib s.drawn))
                    h in
                let here : AreWritten low d1.next_uuid d1 mid (jobs ++ file ∷ []) =
                  subst (λ l. AreWritten low d1.next_uuid d1 l (jobs ++ file ∷ [])) (sym s.entered)
                    (subst
                      (λ m.
                        AreWritten low m d1
                          (staged ++ record { target = file.path; staged = s.path } ∷ [])
                          (jobs ++ file ∷ []))
                      (sym s.next)
                      (AreWritten-snoc low d.next_uuid d1 staged jobs
                        (record { target = file.path; staged = s.path }) file refl
                        (ground (arith, s.seen s.path, path_beq_iff s.path s.path)) plain s.drawn
                        others)) in
                let outside = λ (p : FilePath) (np : NotTemporary uuid p) (same_path : s.path ≡ p).
                  np.0 d.next_uuid
                    (subst (IsSibling uuid (codes "tmp") d.next_uuid) same_path s.drawn) in
                subst
                  (λ c.
                    AreWritten low (stage_each uuid files mid d1).1.next_uuid
                      (stage_each uuid files mid d1).1 now c
                    × ((p : FilePath)
                        → NotTemporary uuid p
                        → view (stage_each uuid files mid d1).1 p ≡ view made p))
                  (append_assoc jobs (file ∷ []) (chosen made files)
                    ∙ ap (λ c. jobs ++ c) (sym taken))
                  (stage_each-AreWritten made low files mid now (jobs ++ file ∷ []) d1 more
                    (λ p np.
                      ground (arith, s.seen p, old p np, outside p np, path_beq_iff s.path p))
                    (s.same_directories ∙ dirs) here rest)
          ])

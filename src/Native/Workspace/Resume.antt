-- ===== src/Native/Workspace/Resume.antt =====
-- What a resumed session gets.
use claude_cowork_service.Base.{
  Bool-cases, Bytes, List, [], arith, elem, eqb_iff, false, inl, inr, is_empty, not, refl, some,
  true, ◌&&◌, ◌++◌, ◌∷◌, ◌≡◌,
}
use claude_cowork_service.Native.Workspace.Choice.{System, first_with_slug, resume, resume_in}
use claude_cowork_service.Transcript.{find_transcript, slugify}
use claude_cowork_service.Transcript.Copy.{Files}

first_with_slug_found :
    (dirs cs : List Bytes) (c : Bytes)
    → elem c cs ≡ true
    → is_empty (slugify c) ≡ false
    → elem (slugify c) dirs ≡ true
    → (x : Bytes) × (first_with_slug dirs cs ≡ some x) × (elem (slugify x) dirs ≡ true)
unfolding first_with_slug elem
first_with_slug_found dirs [] c m n h = absurd (ground arith)
first_with_slug_found dirs (d ∷ cs) c m n h =
    elim (Bool-cases (not (is_empty (slugify d)) && elem (slugify d) dirs)) [
      | inl e ↦ (d, ground (arith, e), ground (arith, e))
      | inr e ↦
          let rest : elem c cs ≡ true = ground (arith, e, eqb_iff d c) in
          let found = first_with_slug_found dirs cs c rest n h in
          (found.0, ground (arith, e, found.1), found.2)
    ]

elem-append : (s : Bytes) (ts us : List Bytes) → elem s ts ≡ true → elem s (ts ++ us) ≡ true
unfolding elem
elem-append s [] us h = absurd (ground arith)
elem-append s (t ∷ ts) us h = ground (arith, elem-append s ts us)

elem_nil : (s : Bytes) → ¬ (elem s [] ≡ true)
unfolding elem
elem_nil s h = ground arith

resume_in_hit :
    (sys : System) (config_dir id current_cwd chosen x d : Bytes) (cs ds : List Bytes) (fs : Files)
    → first_with_slug (d ∷ ds) (cs ++ current_cwd ∷ []) ≡ some x
    → resume_in sys config_dir id current_cwd chosen cs (d ∷ ds) fs ≡ (x, fs)
unfolding resume_in
resume_in_hit sys config_dir id current_cwd chosen x d cs ds fs e = rw (resume_in, e) refl

resume_in_finds :
    (sys : System) (config_dir id current_cwd chosen : Bytes) (cs ds : List Bytes) (c : Bytes)
    (fs : Files)
    → elem c cs ≡ true
    → is_empty (slugify c) ≡ false
    → elem (slugify c) ds ≡ true
    → let run = resume_in sys config_dir id current_cwd chosen cs ds fs in
      (elem (slugify run.0) ds ≡ true) × (run.1 ≡ fs)
resume_in_finds sys config_dir id current_cwd chosen cs [] c fs m n h =
    absurd (elem_nil (slugify c) h)
resume_in_finds sys config_dir id current_cwd chosen cs (d ∷ ds) c fs m n h =
    let found =
      first_with_slug_found (d ∷ ds) (cs ++ current_cwd ∷ []) c
        (elem-append c cs (current_cwd ∷ []) m) n h in
    rw (resume_in_hit sys config_dir id current_cwd chosen (found.0) d cs ds fs (found.1))
      (found.2, refl)

-- A resumed session is started where its transcript is: when some candidate's slug is among the
-- directories that hold the transcript, so is the slug of the chosen directory, and no file changes.
pub resume_finds_transcript :
    (sys : System) (config_dir id current_cwd chosen : Bytes) (cs : List Bytes) (c : Bytes)
    (fs : Files)
    → elem c cs ≡ true
    → is_empty (slugify c) ≡ false
    → elem (slugify c) (find_transcript sys.lookup config_dir id) ≡ true
    → let run = resume sys config_dir id current_cwd chosen cs fs in
      (elem (slugify run.0) (find_transcript sys.lookup config_dir id) ≡ true) × (run.1 ≡ fs)
unfolding resume
resume_finds_transcript sys config_dir id current_cwd chosen cs c fs m n h =
    resume_in_finds sys config_dir id current_cwd chosen cs
      (find_transcript sys.lookup config_dir id) c fs m n h

-- ===== src/Vm/Artifacts/Spared.antt =====
-- What the removal of the native artifacts spares.
use claude_cowork_service.Base.{
  Bool-cases, Bytes, Dict, List, Option-cases, Result, Result-cases, [], ap, arith, drop, elem, eqb,
  eqb_refl, eqb→eq, false, get, get-remove, has_byte, inl, inr, is_empty, length, none, not, refl,
  some, subst, sym, true, ◌+◌, ◌||◌, ◌∙◌, ◌∷◌, ◌≡◌, ◌⊎◌,
}
use claude_cowork_service.FilePath.{join}
use claude_cowork_service.Native.Paths.{Host}
use claude_cowork_service.Rpc.Backend.{MountSpec}
use claude_cowork_service.Transcript.{sort_strings}
use claude_cowork_service.Vm.Paths.{host_abs_from_shared_with_home}
use claude_cowork_service.Vm.Artifacts.{
  Tree, TreeCalls, clear_all_nested, clear_dir, clear_mnt, clear_nested, longest_parent, mnt_dir,
  mount_names, mount_path, remove_link, remove_links, sanitize_native_artifacts,
}

-- A path is as it was, or it was a symbolic link and is gone.
pub IsSpared : Tree → Tree → Bytes → Type 0
IsSpared t t' p = (get p t' ≡ get p t) ⊎ ((get p t ≡ some true) × (get p t' ≡ none))

IsSpared-refl : (t : Tree) (p : Bytes) → IsSpared t t p
unfolding IsSpared
IsSpared-refl t p = inl refl

IsSpared-trans : (t u v : Tree) (p : Bytes) → IsSpared t u p → IsSpared u v p → IsSpared t v p
unfolding IsSpared
IsSpared-trans t u v p (inl e) (inl f) = inl (f ∙ e)
IsSpared-trans t u v p (inl e) (inr (a, b)) = inr (sym e ∙ a, b)
IsSpared-trans t u v p (inr (a, b)) (inl f) = inr (a, f ∙ b)
IsSpared-trans t u v p (inr (a, b)) (inr (c, d)) = inr (a, d)

remove_link-IsSpared :
    (os : TreeCalls) (path : Bytes) (t : Tree) (p : Bytes) → IsSpared t (remove_link os path t) p
unfolding IsSpared remove_link
remove_link-IsSpared os path t p = elim (Option-cases (get path t)) [
  | inl e ↦ inl (rw (remove_link, e))
  | inr (true, e) ↦ elim (Option-cases (os.remove_error path)) [
    | inr (x, f) ↦ inl (rw (remove_link, e, f))
    | inl f ↦ elim (Bool-cases (eqb path p)) [
      | inl same ↦ inr (
        ap (λ q. get q t) (sym (eqb→eq path p same)) ∙ e,
        rw (remove_link, e, f, get-remove path p t, same),
      )
      | inr other ↦ inl (rw (remove_link, e, f, get-remove path p t, other))
    ]
  ]
  | inr (false, e) ↦ inl (rw (remove_link, e))
]

remove_links-IsSpared :
    (os : TreeCalls) (d : Bytes) (names : List Bytes) (t : Tree) (p : Bytes)
    → IsSpared t (remove_links os d names t) p
unfolding remove_links
remove_links-IsSpared os d [] t p = IsSpared-refl t p
remove_links-IsSpared os d (name ∷ names) t p =
    let t' = remove_link os (join (d ∷ name ∷ [])) t in
    IsSpared-trans t t' (remove_links os d names t') p
      (remove_link-IsSpared os (join (d ∷ name ∷ [])) t p) (remove_links-IsSpared os d names t' p)

clear_dir-IsSpared :
    (os : TreeCalls) (d : Bytes) (t : Tree) (p : Bytes) → IsSpared t (clear_dir os d t) p
unfolding clear_dir
clear_dir-IsSpared os d t p = elim (Option-cases (os.names_in d t)) [
  | inl e ↦ rw (clear_dir, e) (IsSpared-refl t p)
  | inr (names, e) ↦ rw (clear_dir, e) (remove_links-IsSpared os d names t p)
]

clear_mnt-IsSpared :
    (os : TreeCalls) (home session_name : Bytes) (t : Tree) (p : Bytes)
    → IsSpared t (clear_mnt os home session_name t) p
unfolding clear_mnt
clear_mnt-IsSpared os home session_name t p = elim (Bool-cases (is_empty session_name)) [
  | inl e ↦ rw (clear_mnt, e) (IsSpared-refl t p)
  | inr e ↦ rw (clear_mnt, e) (clear_dir-IsSpared os (mnt_dir home session_name) t p)
]

clear_nested-IsSpared :
    (os : TreeCalls) (host : Host) (user_home : Result Bytes Bytes) (home : Bytes)
    (mounts : Dict MountSpec) (names : List Bytes) (name : Bytes) (t : Tree) (p : Bytes)
    → IsSpared t (clear_nested os host user_home home mounts names name t) p
unfolding clear_nested
clear_nested-IsSpared os host user_home home mounts names name t p =
    let parent = longest_parent name [] names in
    elim (Bool-cases (not (has_byte name b'/') || is_empty parent)) [
      | inl e ↦ rw e (IsSpared-refl t p)
      | inr e ↦
          elim (Result-cases
            (host_abs_from_shared_with_home host user_home (mount_path parent mounts) home)) [
              | inr (x, f) ↦ rw (e, f) (IsSpared-refl t p)
              | inl (src, f) ↦
                  rw (e, f)
                    (remove_link-IsSpared os (join (src ∷ drop (length parent + 1) name ∷ [])) t p)
            ]
    ]

clear_all_nested-IsSpared :
    (os : TreeCalls) (host : Host) (user_home : Result Bytes Bytes) (home : Bytes)
    (mounts : Dict MountSpec) (names rest : List Bytes) (t : Tree) (p : Bytes)
    → IsSpared t (clear_all_nested os host user_home home mounts names rest t) p
unfolding clear_all_nested
clear_all_nested-IsSpared os host user_home home mounts names [] t p = IsSpared-refl t p
clear_all_nested-IsSpared os host user_home home mounts names (name ∷ rest) t p =
    let t' = clear_nested os host user_home home mounts names name t in
    IsSpared-trans t t' (clear_all_nested os host user_home home mounts names rest t') p
      (clear_nested-IsSpared os host user_home home mounts names name t p)
      (clear_all_nested-IsSpared os host user_home home mounts names rest t' p)

gone_stays : (t t' : Tree) (p : Bytes) → IsSpared t t' p → get p t ≡ none → get p t' ≡ none
unfolding IsSpared
gone_stays t t' p (inl e) h = e ∙ h
gone_stays t t' p (inr (a, b)) h = b

remove_link_self :
    (os : TreeCalls) (p : Bytes) (t : Tree)
    → get p t ≡ some true
    → os.remove_error p ≡ none
    → get p (remove_link os p t) ≡ none
unfolding remove_link
remove_link_self os p t h works = rw (remove_link, h, works, get-remove p p t, eqb_refl p)

-- Every link in a directory that is cleared goes, if it can be removed.
remove_links_gone :
    (os : TreeCalls) (d name : Bytes) (names : List Bytes) (t : Tree)
    → let p = join (d ∷ name ∷ []) in
      elem name names ≡ true
      → get p t ≡ some true
      → os.remove_error p ≡ none
      → get p (remove_links os d names t) ≡ none
unfolding remove_links elem
remove_links_gone os d name [] t m h works = absurd (ground arith)
remove_links_gone os d name (n ∷ names) t m h works =
    let p = join (d ∷ name ∷ []) in
    let t' = remove_link os (join (d ∷ n ∷ [])) t in
    let after = remove_links-IsSpared os d names t' p in
    elim (Bool-cases (eqb n name)) [
      | inl e ↦
          let here : get p t' ≡ none =
            subst (λ x. get p (remove_link os (join (d ∷ x ∷ [])) t) ≡ none) (sym (eqb→eq n name e))
              (remove_link_self os p t h works) in
          gone_stays t' (remove_links os d names t') p after here
      | inr e ↦
          go p t' after (unfold IsSpared in remove_link-IsSpared os (join (d ∷ n ∷ [])) t p)
            (λ k. remove_links_gone os d name names t' (ground (arith, e)) (k ∙ h) works)
    ]
  where
    go :
        (p : Bytes) (t' : Tree)
        → IsSpared t' (remove_links os d names t') p
        → (get p t' ≡ get p t) ⊎ ((get p t ≡ some true) × (get p t' ≡ none))
        → (get p t' ≡ get p t → get p (remove_links os d names t') ≡ none)
        → get p (remove_links os d names t') ≡ none
    go p t' after (inl e) rest = rest e
    go p t' after (inr (a, b)) rest = gone_stays t' (remove_links os d names t') p after b

-- A session's links in its mnt directory, which cannot stay.
abbrev pub ClearsMnt : TreeCalls → Bytes → Bytes → Tree → Tree → Type 0
ClearsMnt os home session_name t t' =
    (names : List Bytes) (name : Bytes)
    → is_empty session_name ≡ false
    → os.names_in (mnt_dir home session_name) t ≡ some names
    → elem name names ≡ true
    → let p = join (mnt_dir home session_name ∷ name ∷ []) in
      get p t ≡ some true → os.remove_error p ≡ none → get p t' ≡ none

clear_mnt-ClearsMnt :
    (os : TreeCalls) (home session_name : Bytes) (t : Tree)
    → ClearsMnt os home session_name t (clear_mnt os home session_name t)
unfolding clear_mnt clear_dir
clear_mnt-ClearsMnt os home session_name t names name some_name listing m h works =
    rw (clear_mnt, some_name, clear_dir, listing)
      (remove_links_gone os (mnt_dir home session_name) name names t m h works)

-- sanitizeNativeArtifacts takes off symbolic links only: whatever the mounts and their names, each
-- path is afterwards as it was before, or it was a symbolic link and is gone. And every link in the
-- session's mnt directory is gone, if the directory can be read and the link removed.
pub sanitize_native_artifacts-IsSpared :
    (os : TreeCalls) (host : Host) (user_home : Result Bytes Bytes) (home session_name : Bytes)
    (mounts : Dict MountSpec) (t : Tree)
    → let t' = sanitize_native_artifacts os host user_home home session_name mounts t in
      ((p : Bytes) → IsSpared t t' p) × ClearsMnt os home session_name t t'
unfolding sanitize_native_artifacts
sanitize_native_artifacts-IsSpared os host user_home home session_name mounts t =
    let names = sort_strings (mount_names mounts) in
    let t' = clear_mnt os home session_name t in
    let t'' = clear_all_nested os host user_home home mounts names names t' in
    let rest = clear_all_nested-IsSpared os host user_home home mounts names names t' in
    (
      λ p. IsSpared-trans t t' t'' p (clear_mnt-IsSpared os home session_name t p) (rest p),
      λ ns name given listing m h works.
          let p = join (mnt_dir home session_name ∷ name ∷ []) in
          gone_stays t' t'' p (rest p)
            (clear_mnt-ClearsMnt os home session_name t ns name given listing m h works),
    )

-- ===== src/Premain/Applied.antt =====
-- What applyParameters leaves: the files, the environment and the arguments of the manifest.
use marblerun.Core.Activation.Parameters.{RpcParameters}
use marblerun.Premain.{
  FileSystem, MarbleServices, Process, apply_parameters, args_or_default, create_files,
  set_variables, setenv,
}
use marblerun.Premain.Restart.{FsLaws, on_files-Post}
use marblerun.Services.{Services}
use marblerun.Base.{
  Bytes, ◌≢◌, All, Bool-cases, List, Map, Option, Str, [], ap, arith, contains, get, get-put,
  get-put_self, inl, inr, is_empty, keys, none, put, refl, some, str_eq_iff, str_eq_refl, ◌||◌, ◌∙◌,
  ◌∷◌, ◌≡◌, Result, deadlock, err, ok, panic,
}
use marblerun.Base.Post.{Post, Post-bind, Post-kept, Post-mono}

-- no two are the same
unfoldable pub AreDistinct : List Str → Type 0
AreDistinct [] = Unit
AreDistinct (x ∷ xs) = All (λ y. y ≢ x) xs × AreDistinct xs

setenv-Post :
    (key value : Str) (env : Map Str)
    → Post (λ u env'. env' ≡ put env key value) (setenv key value env)
unfolding setenv
setenv-Post key value env =
    elim (Bool-cases (is_empty key || (contains b'=' key || contains 0 key) || contains 0 value)) [
      | inl refused ↦ rw refused tt
      | inr fine ↦ rw fine refl
    ]

on_environ-Post :
    {ext : Services} {Files Peer A : Type 0} (P : A → Process ext Files Peer → Type 0)
    (p : Process ext Files Peer) (x : Result A × Map Str)
    → Post (λ a env. P a (record p { environ = env })) x
    → Post P (x.0, record p { environ = x.1 })
on_environ-Post P p (ok a, s) h = h
on_environ-Post P p (err x, s) h = tt
on_environ-Post P p (panic m, s) h = tt
on_environ-Post P p (deadlock, s) h = tt

module _ {ext : Services} (os : MarbleServices ext) where
  -- The variables are set, and no others.
  AreSet : Map Bytes → Map Str → Map Str → Type 0
  AreSet vars env env' =
      All (λ e. get env' e.0 ≡ some (os.text_of e.1)) vars
      × ((q : Str) → All (λ y. y ≢ q) (keys vars) → get env' q ≡ get env q)

  set_variables-AreSet :
      (vars : Map Bytes) (env : Map Str)
      → AreDistinct (keys vars)
      → Post (λ u. AreSet vars env) (set_variables ext os vars env)
  unfolding set_variables AreSet AreDistinct
  set_variables-AreSet [] env d = (tt, λ q fresh. refl)
  set_variables-AreSet ((k, v) ∷ vars) env d =
      Post-bind (λ u env₁. env₁ ≡ put env k (os.text_of v)) (λ u. AreSet ((k, v) ∷ vars) env) _ _
        (setenv-Post k (os.text_of v) env)
        λ u env₁ e.
          Post-mono (λ u. AreSet vars env₁) (λ u. AreSet ((k, v) ∷ vars) env) _
            (set_variables-AreSet vars env₁ d.1)
            λ u env₂ h. (
              (h.1 k d.0 ∙ ap (λ m. get m k) e ∙ get-put_self env k (os.text_of v), h.0),
              λ q fresh.
                  h.1 q fresh.1
                  ∙ ap (λ m. get m q) e
                  ∙ ground (arith, get-put env k q (os.text_of v), str_eq_iff k q, fresh.0),
            )

  module _ {Files : Type 0} (fs : FileSystem Files) (laws : FsLaws fs) where
    -- the files that the paths name
    unfoldable pub clean_paths : Map Bytes → List Str
    clean_paths [] = []
    clean_paths ((path, b) ∷ files) = laws.clean path ∷ clean_paths files

    -- The files have their contents, and no others are changed.
    AreThere : Map Bytes → Files → Files → Type 0
    AreThere files w w' =
        All (λ e. laws.content w' (laws.clean e.0) ≡ some e.1) files
        × ((q : Str) → All (λ y. y ≢ q) (clean_paths files) → laws.content w' q ≡ laws.content w q)

    create_files-AreThere :
        (files : Map Bytes) (w : Files)
        → AreDistinct (clean_paths files)
        → Post (λ u. AreThere files w) (create_files ext os fs files w)
    unfolding create_files AreThere AreDistinct clean_paths
    create_files-AreThere [] w d = (tt, λ q fresh. refl)
    create_files-AreThere ((path, b) ∷ files) w d =
        Post-bind (λ u w₁. (q : Str) → laws.content w₁ q ≡ laws.content w q)
          (λ u. AreThere ((path, b) ∷ files) w) _ _
          (Post-kept (λ w₁. (q : Str) → laws.content w₁ q ≡ laws.content w q) _
            (laws.mkdir-content (os.dir path) 0o700 w))
          λ u w₁ same.
            Post-bind _ (λ u. AreThere ((path, b) ∷ files) w) _ _
              (laws.write-content path b 0o600 w₁)
              λ u w₂ written.
                Post-mono (λ u. AreThere files w₂) (λ u. AreThere ((path, b) ∷ files) w) _
                  (create_files-AreThere files w₂ d.1)
                  λ u w₃ h. (
                    (
                      h.1 (laws.clean path) d.0
                          ∙ written (laws.clean path)
                          ∙ rw (str_eq_refl (laws.clean path)) refl,
                      h.0,
                    ),
                    λ q fresh.
                        h.1 q fresh.1
                        ∙ ground
                            (arith, written q, same q, str_eq_iff (laws.clean path) q, fresh.0),
                  )

    -- The keys of the two maps are the keys of maps, and no two paths name one file.
    abbrev pub HasMaps : Option RpcParameters → Type 0
    HasMaps none = Unit
    HasMaps (some params) =
        AreDistinct (clean_paths params.rpc_files) × AreDistinct (keys params.rpc_env)

    pub record Applied {Peer : Type 0} (params : RpcParameters) (p : Process ext Files Peer)
        : Type 0 where
      pub files_there : All (λ e. laws.content p.files (laws.clean e.0) ≡ some e.1) params.rpc_files
      pub variables_set : All (λ e. get p.environ e.0 ≡ some (os.text_of e.1)) params.rpc_env
      pub argv_set : p.args ≡ args_or_default params.rpc_argv

    pub apply_parameters-Applied :
        {Peer : Type 0} (params : RpcParameters) (p : Process ext Files Peer)
        → HasMaps (some params)
        → Post (λ u. Applied params) (apply_parameters ext os (some params) fs p)
    unfolding apply_parameters AreThere AreSet
    apply_parameters-Applied {Peer} params p maps =
        Post-bind (λ u (q : Process ext Files Peer). AreThere params.rpc_files p.files q.files)
          (λ u. Applied params) _ _
          (on_files-Post (λ u q. AreThere params.rpc_files p.files q.files) p
            (create_files ext os fs params.rpc_files p.files)
            (create_files-AreThere params.rpc_files p.files maps.0))
          λ u q there.
            Post-bind
              (λ u (q' : Process ext Files Peer).
                AreThere params.rpc_files p.files q'.files
                × AreSet params.rpc_env q.environ q'.environ)
              (λ u. Applied params) _ _
              (on_environ-Post
                (λ u q'.
                  AreThere params.rpc_files p.files q'.files
                  × AreSet params.rpc_env q.environ q'.environ)
                q (set_variables ext os params.rpc_env q.environ)
                (Post-mono (λ u. AreSet params.rpc_env q.environ) _ _
                  (set_variables-AreSet params.rpc_env q.environ maps.1) λ u env h. (there, h)))
              λ u q' h. record { files_there = h.0.0; variables_set = h.1.0; argv_set = refl }

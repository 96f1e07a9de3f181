-- ===== src/Core/Rows/Codec.antt =====
-- The columns of an env and back: `insert_env` and `row_to_env` of crates/core/src/store.rs.
use seadog.Prelude.{
  ℕ, ◌≡◌, ◌≢◌, refl, ap, ◌∙◌, false, some, List, [], ◌∷◌, ◌++◌, ok, All, arith, Text, lit, join,
  split_char, split_char-join, contains_char,
}
use seadog.Core.Models.{
  Env, Mode, EnvStatus, mode_from_str_opt, mode_from_str_opt-mode_as_str, status_from_str_opt,
  status_from_str_opt-status_as_str,
}
use seadog.Core.Sql.{EnvRow}
use seadog.Core.Rows.{join_fps, split_fps, env_to_row, row_to_env, decoded}

-- Fingerprints that one column holds: none has a comma, and they are not one empty text.
pub record IsStorable (fps : List Text) : Type 0 where
  pub plain : All (λ fp. contains_char b',' fp ≡ false) fps
  pub told_apart : fps ≢ [] ∷ []

split_fps-full : (s : Text) → s ≢ [] → split_fps s ≡ split_char b',' s
unfolding split_fps
split_fps-full [] ne = absurd (ne refl)
split_fps-full (c ∷ s) ne = refl

append-nonempty : (s t : Text) (c : ℕ) → s ++ (c ∷ t) ≢ []
append-nonempty [] t c e = cc
append-nonempty (d ∷ s) t c e = cc

join-nonempty : (p : Text) (ps : List Text) → (p ∷ ps) ≢ [] ∷ [] → join (lit ",") (p ∷ ps) ≢ []
unfolding join
join-nonempty [] [] ne e = ne refl
join-nonempty (c ∷ p) [] ne e = cc
join-nonempty p (q ∷ ps) ne e = append-nonempty p (join (lit ",") (q ∷ ps)) b',' e

pub split_fps-join_fps : (fps : List Text) → IsStorable fps → split_fps (join_fps fps) ≡ fps
unfolding join_fps join split_fps
split_fps-join_fps [] v = refl
split_fps-join_fps (p ∷ ps) v =
    rw (split_fps-full (join (lit ",") (p ∷ ps)) (join-nonempty p ps v.told_apart))
      (split_char-join b',' p ps v.plain)

pub row_to_env-decoded :
    (row : EnvRow) (mode : Mode) (status : EnvStatus)
    → mode_from_str_opt row.mode ≡ some mode
    → status_from_str_opt row.status ≡ some status
    → row_to_env row ≡ ok (decoded row mode status)
unfolding row_to_env
row_to_env-decoded row mode status m s = ground arith

decoded-env_to_row :
    (env : Env)
    → split_fps (join_fps env.ssh_host_key_fps) ≡ env.ssh_host_key_fps
    → decoded (env_to_row env) env.mode env.status ≡ env
unfolding decoded env_to_row
decoded-env_to_row env e = ap (λ (fps : List Text). record env { ssh_host_key_fps = fps }) e

-- A row that an env was stored in decodes to that env, if the column of its fingerprints can hold
-- them.
pub row_to_env-env_to_row :
    (env : Env) → IsStorable env.ssh_host_key_fps → row_to_env (env_to_row env) ≡ ok env
unfolding env_to_row
row_to_env-env_to_row env v =
    row_to_env-decoded (env_to_row env) env.mode env.status (mode_from_str_opt-mode_as_str env.mode)
      (status_from_str_opt-status_as_str env.status)
    ∙ ap ok (decoded-env_to_row env (split_fps-join_fps env.ssh_host_key_fps v))

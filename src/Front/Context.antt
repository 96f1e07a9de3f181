-- ===== src/Front/Context.antt =====
-- What every verb gets: the `Ctx` of crates/seadog/src/verbs/mod.rs. The connection is the state.
use seadog.Prelude.{Option, Result, ok_or, Text, lit}
use seadog.Prelude.Int.{ℤ}
use seadog.Core.Config.{Config}
use seadog.Core.Failure.{Failure, message}
use seadog.Core.Action.{Acting}
use seadog.Core.Sql.{Db}

-- `struct Ctx`
pub record Ctx : Type 0 where
  pub owner : Option Text
  pub config : Config
  pub now_unix : ℤ

-- A verb that only works on the database.
abbrev pub Verb : Type 0 → Type 0
Verb A = Acting Failure Db A

unfoldable pub require_owner : Ctx → Result Failure Text
require_owner ctx =
    ok_or (message (lit "could not resolve owner (no --owner, no key match)")) ctx.owner

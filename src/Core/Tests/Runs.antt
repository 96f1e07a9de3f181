-- ===== src/Core/Tests/Runs.antt =====
-- A sweep from start to end.
use seadog.Prelude.{
  ◌≡◌, refl, some, [], ◌∷◌, ok, lit, text_eq, eq_ignore_ascii_case, ends_with_char, byte_len,
  utf8_width, strip_prefix,
}
use seadog.Prelude.Int.{pos, ◌+ℤ◌, ◌-ℤ◌, wrap_i64, sub_i64, as_i64, add_i64}
use seadog.Core.Models.{lxc, mode_from_str_opt, status_from_str_opt, mode_as_str, status_as_str}
use seadog.Core.Validate.{validate_guest_name, name_re_is_match}
use seadog.Core.Identity
use seadog.Core.Notify
use seadog.Core.Sql.{statement}
use seadog.Core.Rows
use seadog.Core.Store
use seadog.Core.Reap
use seadog.Core.Tests.Data.{no_faults, any_uuid, config, kento, world}

-- The sweep tears one env down and adopts the other instance.
sweep_run :
    let (r, w) = Reap.sweep no_faults config (pos 5000) kento any_uuid world in
    (r
      ≡ ok (record Reap.default_outcome {
        reaped_count = 1;
        flagged_count = 1;
        readopted_count = 1;
      }))
    × (w.teardowns ≡ (lit "seadog-a", lxc) ∷ [])
    × (w.db.heartbeat ≡ some (pos 5000))
unfolding Reap.sweep Reap.after_list Reap.visit_all Reap.judge Reap.act Reap.read_row
    Reap.note_host_keys Reap.handle_reap_candidate Reap.tear_down Reap.after_teardown
    Reap.at_herd_cap Reap.route Reap.deliver Reap.keep_state Reap.readopt_orphan Reap.readopted_env
    Reap.after_insert Reap.vanished_pass Reap.vanish_all Reap.vanish Reap.after_mark Reap.live_guids
    Reap.finish Identity.classify Identity.classify_matched Identity.classify_unmatched
    Identity.host_keys_disagree Identity.mac_disagrees Identity.mac_eq Notify.decide Notify.emit
    Notify.event_key Notify.event_detail Notify.base_severity Notify.severity_as_str Store.get_env
    Store.insert_env Store.mark_reaped Store.set_status Store.list_by_status Store.put_notify_state
    Store.get_notify_state Store.write_heartbeat Rows.optional_env Rows.row_to_env Rows.decoded
    Rows.env_to_row Rows.insert_row Rows.update_or_missing Rows.update_guid Rows.collect_envs
    Rows.newest_first Rows.insert_newest Rows.upsert Rows.split_fps Rows.join_fps statement text_eq
    eq_ignore_ascii_case ends_with_char byte_len utf8_width strip_prefix ◌+ℤ◌ ◌-ℤ◌ wrap_i64 sub_i64
    as_i64 add_i64 mode_from_str_opt status_from_str_opt mode_as_str status_as_str
    validate_guest_name name_re_is_match
sweep_run = (refl, refl, refl)

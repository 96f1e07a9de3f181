-- ===== src/Core/Tests/Kento.antt =====
-- Runs of the parsers and of the harness around kento, and an instance of each of their results.
use seadog.Prelude.{
  trim, is_whitespace, ◌≡◌, refl, true, false, none, some, List, [], ◌∷◌, map, ok, err, Result,
  if◌then◌else◌, Text, lit, text_eq, to_ascii_lowercase,
}
use seadog.Prelude.Int.{pos}
use seadog.Core.Errors.{Error}
use seadog.Core.Models.{vm, InstanceSignals}
use seadog.Core.Post.{Post}
use seadog.Core.Json.{
  Json, null, string, number, pos_int, array, object, Items, no_items, item, Members, no_members,
  member, append_items, string_items,
}
use seadog.Core.Rows.{join_fps, split_fps}
use seadog.Core.Kento.{provision_argv, ProvisionSpec, list_json_argv}
use seadog.Core.Kento.Parse.{parse_signals_obj, parse_u64}
use seadog.Core.Kento.Quorum.{ObjectsOf}
use seadog.Core.Kento.Storable.{parse_signals_obj-split_fps}
use seadog.Core.Kento.Anchor.{env_args, ends, entry, other, parse_signals_obj-anchor}
use seadog.Core.Kento.Real.{Ran, ended, Runs, from_config, list_instances}
use seadog.Core.Kento.Seen.{Printed, Unseen, list_instances-Seen}

-- The second fingerprint has a comma, and the third is not a text.
abbrev fingerprints : Members
fingerprints = member (lit "rsa") (string (lit "SHA256:b")) (
    member (lit "dsa") (string (lit "SHA256:x,y"))
      (member (lit "none") null (member (lit "ed25519") (string (lit "SHA256:a")) no_members)))

abbrev environment : Items
environment = append_items (string_items (lit "SEADOG_GUID=old" ∷ lit "PATH" ∷ [])) (
    string_items
      (lit "SEADOG_GUID=g1" ∷ lit "LANG=C" ∷ lit "SEADOG_OWNER=ci" ∷ lit "TERM=xterm" ∷ []))

abbrev guest : Members
guest = member (lit "name") (string (lit "ci-a1")) (
    member (lit "type") (string (lit "VM")) (
      member (lit "vmid") (string (lit " 101 ")) (
        member (lit "environment") (array environment)
          (member (lit "ssh_host_key_fingerprints") (object fingerprints) no_members))))

abbrev spec : ProvisionSpec
spec = record {
  mode = vm;
  image_ref = lit "debian";
  name = lit "ci-a1";
  mac = lit "02:00:00:00:00:01";
  ip = lit "10.0.0.2";
  prefix = 24;
  gateway = lit "10.0.0.1";
  bridge = lit "br0";
  guid = lit "g1";
  owner = lit "ci";
  ssh_key_file = none;
  ssh_key_user = lit "root";
  allow_nesting = false;
  memory = none;
  cores = none;
}

abbrev signals : InstanceSignals
signals = record {
  name = lit "ci-a1";
  guid = some (lit "g1");
  owner = some (lit "ci");
  mac = none;
  ssh_host_key_fps = lit "SHA256:a" ∷ lit "SHA256:b" ∷ [];
  image = [];
  status = [];
  mode = vm;
  vmid = some 101;
}

guest_read : parse_signals_obj guest ≡ signals
unfolding parse_signals_obj text_eq trim is_whitespace
guest_read = refl

too_large : parse_u64 (lit "18446744073709551616") ≡ none
unfolding parse_u64
too_large = refl

plus_sign : parse_u64 (lit "+7") ≡ some 7
unfolding parse_u64
plus_sign = refl

abbrev lowercase : Text → Text
lowercase = map to_ascii_lowercase

abbrev parsed : Text → Result Text Json
parsed t =
    if text_eq t (lit "[1, {}]")
    then ok (array (item (number (pos_int 1)) (item (object guest) no_items)))
    else err (lit "expected value")

abbrev answering : Runs → List Text → Ran
answering runs argv = ended (record { success = true; code = some (pos 0) }) (lit "[1, {}]") []

abbrev without_quorum : Runs → List Text → Ran
without_quorum runs argv =
    ended (record { success = false; code = some (pos 1) }) [] (lit "pmxcfs: No Quorum\n")

listed_guest :
    list_instances lowercase (lit "kento") answering parsed []
    ≡ (ok (signals ∷ []), list_json_argv ∷ [])
unfolding list_instances parse_signals_obj text_eq trim is_whitespace
listed_guest = refl

quorum_lost_run : list_instances lowercase (lit "kento") without_quorum parsed [] ≡ (
  err (Error.quorum_lost (lit "kento reported quorum loss: pmxcfs: No Quorum")),
  list_json_argv ∷ [],
)
unfolding list_instances trim is_whitespace
quorum_lost_run = refl

blank_path : from_config (some (lit "  ")) ≡ lit "kento"
unfolding from_config trim is_whitespace
blank_path = refl

parse_signals_obj-split_fps_example :
    split_fps (join_fps (parse_signals_obj guest).ssh_host_key_fps)
    ≡ (parse_signals_obj guest).ssh_host_key_fps
parse_signals_obj-split_fps_example = parse_signals_obj-split_fps guest

parse_signals_obj-anchor_example :
    ((parse_signals_obj guest).guid ≡ some (lit "g1"))
    × ((parse_signals_obj guest).owner ≡ some (lit "ci"))
unfolding text_eq env_args provision_argv
parse_signals_obj-anchor_example =
    parse_signals_obj-anchor spec (string_items (lit "SEADOG_GUID=old" ∷ lit "PATH" ∷ [])) _ guest
      refl refl (entry (other (λ value. (cc, cc)) (entry (other (λ value. (cc, cc)) ends)))) refl

list_instances-Seen_example :
    Post
      (λ instances a.
        (items : Items) × Printed lowercase (lit "kento") answering parsed [] items
        × ObjectsOf items instances)
      (λ e a. Unseen lowercase (lit "kento") answering parsed [] e)
      (list_instances lowercase (lit "kento") answering parsed [])
list_instances-Seen_example = list_instances-Seen lowercase (lit "kento") answering parsed []

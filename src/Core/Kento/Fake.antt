-- ===== src/Core/Kento/Fake.antt =====
-- `FakeKento` of crates/core/src/kento.rs, the instances in memory. Its mutex is left out: each
-- operation holds it from its start to its end.
use seadog.Prelude.{
  Bool, not, ◌++◌, Option, none, some, List, [], ◌∷◌, ok, err, select, Text, lit, text_eq, lookup,
}
use seadog.Core.Errors.{Error}
use seadog.Core.Models.{Mode, lxc, vm, InstanceSignals}
use seadog.Core.Action.{Action}
use seadog.Core.Kento.{ProvisionSpec, ProvisionOutcome}

-- A later entry of `teardown_fail` under a name stands before the ones it replaces.
pub record FakeState : Type 0 where
  pub instances : List InstanceSignals
  pub teardowns : List (Text × Mode)
  pub provisions : List ProvisionSpec
  pub provision_allow_nesting : List Bool
  pub quorum_lost : Option Text
  pub teardown_fail : List (Text × Text)
  pub provision_fail : Option Text
  pub list_fail : Option Text

abbrev pub new_fake : FakeState
new_fake = record {
  instances = [];
  teardowns = [];
  provisions = [];
  provision_allow_nesting = [];
  quorum_lost = none;
  teardown_fail = [];
  provision_fail = none;
  list_fail = none;
}

abbrev pub set_instances : List InstanceSignals → FakeState → FakeState
set_instances instances st = record st { instances = instances }

abbrev pub set_quorum_lost : Text → FakeState → FakeState
set_quorum_lost msg st = record st { quorum_lost = some msg }

abbrev pub fail_teardown : Text → Text → FakeState → FakeState
fail_teardown name msg st = record st { teardown_fail = (name, msg) ∷ st.teardown_fail }

abbrev pub fail_provision : Text → FakeState → FakeState
fail_provision msg st = record st { provision_fail = some msg }

abbrev pub fail_list : Text → FakeState → FakeState
fail_list msg st = record st { list_fail = some msg }

abbrev pub clear_list_fail : FakeState → FakeState
clear_list_fail st = record st { list_fail = none }

abbrev pub Fake : Type 0 → Type 0
Fake A = Action FakeState A

unfoldable pub fake_list_instances : Fake (List InstanceSignals)
fake_list_instances st = elim st.quorum_lost [
  | some msg ↦ (err (Error.quorum_lost msg), st)
  | none ↦ elim st.list_fail [
    | some msg ↦ (err (Error.kento msg), st)
    | none ↦ (ok st.instances, st)
  ]
]

abbrev pub torn_down : Text → Mode → FakeState → FakeState
torn_down name mode st = record st {
  teardowns = st.teardowns ++ (name, mode) ∷ [];
  instances = select (λ i. not (text_eq i.name name)) st.instances;
}

unfoldable pub fake_teardown : Text → Mode → Fake (Unit {0})
fake_teardown name mode st = elim st.quorum_lost [
  | some msg ↦ (err (Error.quorum_lost msg), st)
  | none ↦ elim (lookup name st.teardown_fail) [
    | some msg ↦ (err (Error.kento msg), st)
    | none ↦ (ok tt, torn_down name mode st)
  ]
]

abbrev pub effective_mac : ProvisionSpec → Option Text
effective_mac spec = elim spec.mode [ vm ↦ some spec.mac | lxc ↦ none ]

abbrev pub fake_fps : ProvisionSpec → List Text
fake_fps spec = (lit "SHA256:fp-ed25519-" ++ spec.name) ∷ (lit "SHA256:fp-rsa-" ++ spec.name) ∷ []

abbrev pub realized : ProvisionSpec → InstanceSignals
realized spec = record {
  name = spec.name;
  guid = some spec.guid;
  owner = some spec.owner;
  mac = effective_mac spec;
  ssh_host_key_fps = fake_fps spec;
  image = spec.image_ref;
  status = lit "running";
  mode = spec.mode;
  vmid = none;
}

abbrev pub provisioned : ProvisionSpec → FakeState → FakeState
provisioned spec st = record st {
  instances = st.instances ++ realized spec ∷ [];
  provisions = st.provisions ++ spec ∷ [];
  provision_allow_nesting = st.provision_allow_nesting ++ spec.allow_nesting ∷ [];
}

unfoldable pub fake_provision : ProvisionSpec → Fake ProvisionOutcome
fake_provision spec st = elim st.quorum_lost [
  | some msg ↦ (err (Error.quorum_lost msg), st)
  | none ↦ elim st.provision_fail [
    | some msg ↦ (err (Error.kento msg), st)
    | none ↦ (
      ok (record { mac = effective_mac spec; ssh_host_key_fps = fake_fps spec; vmid = none }),
      provisioned spec st,
    )
  ]
]

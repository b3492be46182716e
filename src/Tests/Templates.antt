-- ===== src/Tests/Templates.antt =====
-- A node with a senlib template, on which a claim is prepared for the first time.
use dra_driver_spyre.Prelude.{
  ◌≡◌, refl, sym, ap, subst, ◌∙◌, inl, inr, none, some, List, [], ◌∷◌, lookup,
}
use dra_driver_spyre.Env.{
  Env, World, Result, ok, returned, DraDevice, PreparedDevice, PreparedDevices,
}
use dra_driver_spyre.Devices.{get_pci_addr}
use dra_driver_spyre.Handler.Senlib.Runs.{template, made, makes}
use dra_driver_spyre.Handler.Cdi.{get_device_ids, split_device_ids_by_product_id, config_product_id}
use dra_driver_spyre.State.{
  ResourceClaim, prepared_device, prepare_results, prepare_devices, prepare, get_devices,
  prepared_of,
}
use dra_driver_spyre.State.Claims.{Reads, IsPrepared, prepare-After, prepare_again}
use dra_driver_spyre.Env.Ensures.{After}
use dra_driver_spyre.Env.Laws.{CheckpointLaws}
use dra_driver_spyre.State.Returns.{Works, FillsFor, prepare_returns}
use dra_driver_spyre.Tests.Node.{node}
use dra_driver_spyre.Tests.Cards.{card, offered}
use dra_driver_spyre.Tests.Claims.{result_of, held_claims}

abbrev template_node : Env
template_node = record node { unmarshal = λ _. ok template }

abbrev begun : World template_node
begun = record {
  disk = record { checkpoint = held_claims; specs = []; folders = []; published = none };
  history = [];
  uuid_map = [];
}

template_checkpoint : CheckpointLaws template_node
template_checkpoint = record {
  get-create = λ c d h. refl;
  get-create_failed = λ c d e h. cc;
  get-mkdir = λ p d. refl;
  get-remove = λ p d. refl;
  get-write = λ p s d. refl;
  get-uuid = λ d. refl;
  get-write_spec = λ s n d. refl;
  get-remove_spec = λ n d. refl;
}

begun-Reads : Reads template_node held_claims begun
begun-Reads = record { reads = refl }

works : Works template_node
works = record {
  mkdir = λ p d. refl;
  write_file = λ p s d. refl;
  version = λ s. ("0.5.0", refl);
  write_spec = λ s n d. refl;
  create_checkpoint = λ c d. refl;
}

abbrev new_claim : ResourceClaim
new_claim = record {
  uid = "claim-2";
  allocation = some (result_of "spyre.ibm.com" "0000-1a-00-0" ∷ []);
}

abbrev new_devices : PreparedDevices
new_devices = some (
    prepared_device template_node (result_of "spyre.ibm.com" "0000-1a-00-0") (card "ONLINE")
      begun.disk
    ∷ [])

prepares : prepare_devices template_node (offered "ONLINE") new_claim begun.disk ≡ ok new_devices
unfolding prepare_devices prepare_results lookup
prepares = refl

fills : FillsFor template_node new_devices
unfolding get_device_ids split_device_ids_by_product_id config_product_id prepared_device
    get_pci_addr
fills = record {
  text = "{}";
  template = template;
  config = made;
  content = "{}";
  there = λ d. refl;
  read = refl;
  filled = makes;
  printed = refl;
}

prepare_returns_example :
    (devices : List DraDevice) × ((prepare template_node "node-1"
        (offered "ONLINE")
        new_claim
        begun).0
      ≡ returned devices)
prepare_returns_example =
    prepare_returns works "node-1" (offered "ONLINE") new_claim held_claims new_devices begun
      begun-Reads prepares fills

unfoldable new_answer : DraDevice
unfolding prepared_device
new_answer =
    (prepared_device template_node (result_of "spyre.ibm.com" "0000-1a-00-0") (card "ONLINE")
      begun.disk).device

first_answer :
    (prepare template_node "node-1" (offered "ONLINE") new_claim begun).0
    ≡ returned (new_answer ∷ [])
unfolding get_devices prepared_of lookup new_answer prepared_device
first_answer =
    let (devices, returns) = prepare_returns_example in
    let done : IsPrepared template_node (offered "ONLINE") new_claim held_claims begun.disk devices
        (prepare template_node "node-1" (offered "ONLINE") new_claim begun).1 =
      subst
        (λ o.
          After (IsPrepared template_node (offered "ONLINE") new_claim held_claims begun.disk)
            (Reads template_node held_claims) o
            (prepare template_node "node-1" (offered "ONLINE") new_claim begun).1)
        returns
        (prepare-After template_checkpoint "node-1" (offered "ONLINE") new_claim held_claims begun
          begun-Reads) in
    returns
    ∙ ap returned (
        sym done.held ∙ elim done.source [
          | inl (ds, old, _) ↦ absurd (not_old ds old)
          | inr made ↦ ap get_devices (of_ok (sym made ∙ prepares))
        ])
  where
    not_old : (ds : List PreparedDevice) → prepared_of "claim-2" held_claims ≡ some ds → ⊥
    not_old ds e = cc

    of_ok : {a b : PreparedDevices} → Path (Result PreparedDevices) (ok a) (ok b) → a ≡ b
    of_ok e = cc

prepare_again_example :
    prepare template_node "node-2" [] new_claim
      (prepare template_node "node-1" (offered "ONLINE") new_claim begun).1
    ≡ (
      returned (new_answer ∷ []),
      (prepare template_node "node-1" (offered "ONLINE") new_claim begun).1,
    )
prepare_again_example =
    prepare_again template_checkpoint "node-1" (offered "ONLINE") new_claim held_claims begun
      new_answer [] begun-Reads first_answer "node-2" []

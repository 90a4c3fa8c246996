-- ===== src/Tests/Packages.antt =====
-- Publishing and installing in small networks.
use kademlia_packet_manager.Prelude.{
  ◌≡◌, ◌⊎◌, ◌↔◌, refl, ℕ, List, [], ◌∷◌, Option, some, none, false, arith, ℕ_discrete,
  list_discrete,
}
use kademlia_packet_manager.CloseNodes.{Key, id_discrete}
use kademlia_packet_manager.Package.{
  Str, Version, latest_pointer_tag, key_for_value, contains, colon,
}
use kademlia_packet_manager.Package.Versions.{from_str, fmt}
use kademlia_packet_manager.Package.Versions.RoundTrip.{from_str-fmt, IsU32s}
use kademlia_packet_manager.VersionChain.{Record}
use kademlia_packet_manager.VersionChain.Load.{IsOwned}
use kademlia_packet_manager.VersionChain.Compare.{signed_discrete}
use kademlia_packet_manager.Store.{Value, latest, StoreRequest, value_key, handle, stored}
use kademlia_packet_manager.VersionChain.{was_seen}
use kademlia_packet_manager.DashMap.{DashMap, assoc_map}
use kademlia_packet_manager.Lookup.{lookup_fuel}
use kademlia_packet_manager.Registry.{
  success, failure, PreparedPublication, prepare_publication, no_dns_key, wrong_signing_key,
}
use kademlia_packet_manager.Registry.Taken.{KeysApart, prepare_publication-taken}
use kademlia_packet_manager.Registry.Publish.{
  PublishReceipt, publish_package, publish_package-refused,
}
use kademlia_packet_manager.Registry.Install.{
  InstalledPackage, install_package, install_package-IsOwned, IsRequested,
}
use kademlia_packet_manager.Tests.Chains.{
  libraries, pointer, third, history, history-IsHistory, digest, version_of,
}
use kademlia_packet_manager.Tests.Network.{wire, alone, storing, at_rest}

abbrev dns : Str → Option ℕ
dns domain = some 5

abbrev prepared : PreparedPublication
prepared = record {
  blob = 9 ∷ [];
  signed_record = third;
  pointer = record {
    body = record {
      tag = latest_pointer_tag;
      domain = 97 ∷ [];
      package_name = 112 ∷ [];
      version = version_of 3;
      version_record_hash = digest (3 ∷ []);
    };
    sig = [];
  };
  proof = third ∷ history;
}

prepared_so :
    prepare_publication libraries (97 ∷ []) (112 ∷ []) (version_of 3) (9 ∷ []) 5 history none false
    ≡ success prepared
unfolding prepare_publication signed_discrete id_discrete list_discrete ℕ_discrete
prepared_so = refl

no_colon : contains (97 ∷ []) colon ≡ false
unfolding contains
no_colon = refl

abbrev slot_of : DashMap Key Value
slot_of = assoc_map id_discrete

-- A node that has the pointer to the second version.
abbrev values : List (Key × Value)
values = (digest (97 ∷ []), latest pointer) ∷ []

abbrev request : StoreRequest
request = record {
  key = value_key libraries (latest prepared.pointer);
  value = latest prepared.pointer;
  proof = prepared.proof;
}

keys_apart : KeysApart libraries (97 ∷ []) (112 ∷ []) 5 prepared.pointer prepared.proof
unfolding was_seen id_discrete list_discrete ℕ_discrete
keys_apart = (refl, (refl, (refl, tt)))

slot_there :
    slot_of.get values (value_key libraries (latest prepared.pointer)) ≡ some (latest pointer)
unfolding value_key id_discrete list_discrete ℕ_discrete
slot_there = refl

prepare_publication-taken_example :
    handle libraries slot_of dns (λ bytes. some request) values [] ≡ (
      slot_of.insert values
          (value_key libraries (latest prepared.pointer))
          (latest prepared.pointer),
      some stored,
    )
prepare_publication-taken_example =
    prepare_publication-taken libraries (97 ∷ []) (112 ∷ []) 5 slot_of dns (λ bytes. some request)
      (version_of 3) (9 ∷ []) pointer history none prepared values [] (λ e. cc) no_colon
      history-IsHistory (omega arith) prepared_so (λ e. cc) keys_apart refl slot_there refl

-- The same pointer, of a higher version, without its history.
unproved :
    handle libraries slot_of dns (λ bytes. some (record request { proof = [] })) values []
    ≡ (values, none)
unfolding handle signed_discrete id_discrete list_discrete ℕ_discrete
unproved = refl

abbrev receipt : PublishReceipt
receipt = record {
  blob_key = digest (9 ∷ []);
  record_key = digest (1 ∷ []);
  latest_key = digest (97 ∷ []);
  blob_accepted = 1;
  record_accepted = 1;
  latest_accepted = 1;
}

publish_package-refused_example :
    (publish_package wire storing libraries dns at_rest
        (97 ∷ [])
        (112 ∷ [])
        (version_of 1)
        (9 ∷ [])
        6
        none
        false
      ≡ (at_rest, failure no_dns_key))
    ⊎ (publish_package wire storing libraries dns at_rest
          (97 ∷ [])
          (112 ∷ [])
          (version_of 1)
          (9 ∷ [])
          6
          none
          false
        ≡ (at_rest, failure wrong_signing_key))
publish_package-refused_example =
    publish_package-refused wire storing libraries dns at_rest (97 ∷ []) (112 ∷ []) (version_of 1)
      (9 ∷ []) 6 none (λ e. cc)

abbrev newest_one : InstalledPackage
newest_one = record { version = version_of 2; blob_key = digest (8 ∷ []); blob = 8 ∷ [] }

installed :
    (install_package wire alone libraries dns at_rest (97 ∷ []) (112 ∷ []) none).1
    ≡ success newest_one
unfolding install_package lookup_fuel signed_discrete id_discrete list_discrete ℕ_discrete
installed = refl

install_package-IsOwned_example :
    (chain : List Record) × (r : Record) × IsOwned wire alone libraries dns
      (97 ∷ [])
      (112 ∷ [])
      chain
    × IsRequested wire alone libraries dns chain none r
    × (key_for_value libraries newest_one.blob ≡ r.body.blob_hash)
    × (newest_one.version ≡ r.body.version)
install_package-IsOwned_example =
    install_package-IsOwned wire alone libraries dns at_rest (97 ∷ []) (112 ∷ []) none newest_one
      installed

abbrev release : Version
release = record { major = 1; minor = 11; patch = 0 }

-- "1.11.0"
printed_release : fmt release ≡ 49 ∷ 46 ∷ 49 ∷ 49 ∷ 46 ∷ 48 ∷ []
unfolding fmt
printed_release = refl

-- "1.2", "1.2.x", "+1.2.3" and "1..3"
two_parts : from_str (49 ∷ 46 ∷ 50 ∷ []) ≡ none
unfolding from_str
two_parts = refl

no_number : from_str (49 ∷ 46 ∷ 50 ∷ 46 ∷ 120 ∷ []) ≡ none
unfolding from_str
no_number = refl

signed_number :
    from_str (43 ∷ 49 ∷ 46 ∷ 50 ∷ 46 ∷ 51 ∷ []) ≡ some (record { major = 1; minor = 2; patch = 3 })
unfolding from_str
signed_number = refl

empty_part : from_str (49 ∷ 46 ∷ 46 ∷ 51 ∷ []) ≡ none
unfolding from_str
empty_part = refl

-- "4294967296.0.0"
too_large :
    from_str (52 ∷ 50 ∷ 57 ∷ 52 ∷ 57 ∷ 54 ∷ 55 ∷ 50 ∷ 57 ∷ 54 ∷ 46 ∷ 48 ∷ 46 ∷ 48 ∷ []) ≡ none
unfolding from_str
too_large = refl

from_str-fmt_example : (from_str (fmt release) ≡ some release) ↔ IsU32s release
from_str-fmt_example = from_str-fmt release

-- ===== src/Registry/Install.antt =====
-- src/registry.rs, `install_package` and `show_package`: the verified versions of a package, and the
-- bytes of one of them.
use kademlia_packet_manager.Prelude.{
  ℕ, suc, ◌≡◌, ◌∙◌, sym, ap, subst, Bool, true, Option, none, some, List, [], ◌∷◌, Has,
  if◌then◌else◌, Bool-cases, Option-cases, inl, inr, ◌==◌,
}
use kademlia_packet_manager.CloseNodes.{Key}
use kademlia_packet_manager.Package.{Str, Version, is_version, Libraries, key_for_value}
use kademlia_packet_manager.VersionChain.{Record, ChainError, ok, err, empty_chain}
use kademlia_packet_manager.VersionChain.Load.{load_chain, load_chain-IsOwned, IsOwned}
use kademlia_packet_manager.VersionChain.Proof.{Result-cases}
use kademlia_packet_manager.Rpc.{Wire, Rpc, Local}
use kademlia_packet_manager.Lookup.Values.{lookup_value}
use kademlia_packet_manager.Lookup.Verified.{lookup_value-key_for_value}
use kademlia_packet_manager.Registry.{Attempt, success, failure, or_failure}
use kademlia_packet_manager.Registry.Prepared.{Attempt-cases}

pub data InstallError : Type 0 where
  invalid_history : ChainError → InstallError
  version_not_found : Version → InstallError
  blob_unavailable : Key → InstallError

pub record InstalledPackage : Type 0 where
  pub version : Version
  pub blob_key : Key
  pub blob : List ℕ

pub record PublishedVersion : Type 0 where
  pub version : Version
  pub blob_key : Key
  pub is_latest : Bool

-- `history.iter().find(|record| record.body.version == version)`
unfoldable pub find_version : Version → List Record → Option Record
unfolding is_version
find_version version [] = none
find_version version (r ∷ rs) =
    if is_version r.body.version version then some r else find_version version rs

unfoldable pub choose_record : List Record → Option Version → Attempt Record InstallError
unfolding find_version
choose_record history (some version) =
    or_failure (find_version version history) (version_not_found version) success
choose_record [] none = failure (invalid_history empty_chain)
choose_record (r ∷ rs) none = success r

-- `enumerate().map(..)`, from an index on.
unfoldable pub published_versions : ℕ → List Record → List PublishedVersion
published_versions index [] = []
published_versions index (r ∷ rs) =
    record { version = r.body.version; blob_key = r.body.blob_hash; is_latest = index == 0 }
    ∷ published_versions (suc index) rs

module _ (wire : Wire) {S : Type 0} (rpc : Rpc S) (lib : Libraries)
    (get_dns_vk : Str → Option lib.VerifyingKey) where
  abbrev pub State : Type 0
  State = Local S rpc.World

  -- The blob that a signed record names.
  unfoldable pub fetch_blob : State → Record → State × Attempt InstalledPackage InstallError
  unfolding lookup_value
  fetch_blob s r =
      let (s', found) = lookup_value wire rpc lib s r.body.blob_hash in
      elim found [
        | none ↦ (s', failure (blob_unavailable r.body.blob_hash))
        | some (source, bytes) ↦ (
          s',
          success (record { version = r.body.version; blob_key = r.body.blob_hash; blob = bytes }),
        )
      ]

  unfoldable pub install_from :
      State → List Record → Option Version → State × Attempt InstalledPackage InstallError
  unfolding choose_record fetch_blob
  install_from s history requested = elim (choose_record history requested) [
    | failure e ↦ (s, failure e)
    | success r ↦ fetch_blob s r
  ]

  unfoldable pub install_package :
      State → Str → Str → Option Version → State × Attempt InstalledPackage InstallError
  unfolding load_chain install_from
  install_package s domain package_name requested =
      let (s', loaded) = load_chain wire rpc lib get_dns_vk s domain package_name in
      elim loaded [
        | err e ↦ (s', failure (invalid_history e))
        | ok history ↦ install_from s' history requested
      ]

  unfoldable pub show_package :
      State → Str → Str → State × Attempt (List PublishedVersion) ChainError
  unfolding load_chain published_versions
  show_package s domain package_name =
      let (s', loaded) = load_chain wire rpc lib get_dns_vk s domain package_name in
      elim loaded [
        | err e ↦ (s', failure e)
        | ok history ↦ (s', success (published_versions 0 history))
      ]

  find_version-Has :
      (version : Version) (history : List Record) (r : Record)
      → find_version version history ≡ some r
      → Has r history × (is_version r.body.version version ≡ true)
  unfolding find_version
  find_version-Has version [] r e = cc
  find_version-Has version (q ∷ qs) r e = elim (Bool-cases (is_version q.body.version version)) [
    | inl it ↦
        let made : some q ≡ some r = rw (it, find_version) at e in
        let same : q ≡ r = cc made in
        (inl (sym same), subst (λ x. is_version x.body.version version ≡ true) same it)
    | inr other ↦
        let (m, v) = find_version-Has version qs r (rw (other, find_version) at e) in (inr m, v)
  ]

  -- The version that was asked for, or the newest.
  abbrev pub IsRequested : List Record → Option Version → Record → Type 0
  IsRequested history (some version) r = Has r history × (is_version r.body.version version ≡ true)
  IsRequested history none r = (rest : List Record) × (history ≡ r ∷ rest)

  choose_record-IsRequested :
      (history : List Record) (requested : Option Version) (r : Record)
      → choose_record history requested ≡ success r
      → IsRequested history requested r
  unfolding choose_record
  choose_record-IsRequested history (some version) r e =
      elim (Option-cases (find_version version history)) [
        | inl absent ↦
            let missing : failure (version_not_found version) ≡ success r =
              rw (absent, choose_record) at e in
            cc missing
        | inr (q, found) ↦
            let made : success q ≡ success r = rw (found, choose_record) at e in
            let same : q ≡ r = cc made in find_version-Has version history r (found ∙ ap some same)
      ]
  choose_record-IsRequested [] none r e = cc
  choose_record-IsRequested (q ∷ qs) none r e =
      let same : q ≡ r = cc e in (qs, ap (λ x. x ∷ qs) same)

  fetch_blob-success :
      (s : State) (r : Record) (out : InstalledPackage)
      → (fetch_blob s r).1 ≡ success out
      → (key_for_value lib out.blob ≡ r.body.blob_hash) × (out.version ≡ r.body.version)
  unfolding fetch_blob
  fetch_blob-success s r out e =
      elim (Option-cases (lookup_value wire rpc lib s r.body.blob_hash).1) [
        | inl absent ↦
            let missing : failure (blob_unavailable r.body.blob_hash) ≡ success out =
              rw (absent, fetch_blob) at e in
            cc missing
        | inr ((source, bytes), found) ↦
            let made : success
                  (record { version = r.body.version; blob_key = r.body.blob_hash; blob = bytes })
                ≡ success out =
              rw (found, fetch_blob) at e in
            let same_blob : bytes ≡ out.blob = cc made in
            let same_version : r.body.version ≡ out.version = cc made in
            (
              ap (key_for_value lib) (sym same_blob)
                  ∙ lookup_value-key_for_value wire rpc lib s r.body.blob_hash source bytes found,
              sym same_version,
            )
      ]

  install_from-success :
      (s : State) (history : List Record) (requested : Option Version) (out : InstalledPackage)
      → (install_from s history requested).1 ≡ success out
      → (r : Record) × IsRequested history requested r × ((fetch_blob s r).1 ≡ success out)
  unfolding install_from
  install_from-success s history requested out e =
      elim (Attempt-cases (choose_record history requested)) [
        | inr (error, bad) ↦
            let failed : failure error ≡ success out = rw (bad, install_from) at e in cc failed
        | inl (r, chosen) ↦ (
          r,
          choose_record-IsRequested history requested r chosen,
          rw (chosen, install_from) at e,
        )
      ]

  -- Whatever the network answers, what is installed is the version that was asked for, or the newest,
  -- of a history that the domain's owner signed throughout; and its bytes hash to what the record of
  -- that version names.
  pub install_package-IsOwned :
      (s : State) (domain package_name : Str) (requested : Option Version) (out : InstalledPackage)
      → (install_package s domain package_name requested).1 ≡ success out
      → (history : List Record) × (r : Record) × IsOwned wire rpc lib get_dns_vk domain package_name
          history
        × IsRequested history requested r
        × (key_for_value lib out.blob ≡ r.body.blob_hash)
        × (out.version ≡ r.body.version)
  unfolding install_package
  install_package-IsOwned s domain package_name requested out e =
      elim (Result-cases (load_chain wire rpc lib get_dns_vk s domain package_name).1) [
        | inr (error, bad) ↦
            let failed : failure (invalid_history error) ≡ success out =
              rw (bad, install_package) at e in
            cc failed
        | inl (history, loaded) ↦
            let s' = (load_chain wire rpc lib get_dns_vk s domain package_name).0 in
            let made : (install_from s' history requested).1 ≡ success out =
              rw (loaded, install_package) at e in
            let (r, chosen, got) = install_from-success s' history requested out made in
            let (hash, version) = fetch_blob-success s' r out got in
            (
              history,
              r,
              load_chain-IsOwned wire rpc lib get_dns_vk s domain package_name history loaded,
              chosen,
              hash,
              version,
            )
      ]

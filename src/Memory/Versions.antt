-- ===== src/Memory/Versions.antt =====
-- src/memory.rs: the application versions; the latest is the one with the newest timestamp.
pub mod Laws
use durust.Base.{
  String, Bool, true, false, Option, none, some, List, [], ◌∷◌, ◌==◌, string_eq, is_some,
  if◌then◌else◌,
}
use durust.Base.Sorting.{sort}
use durust.Platform.{Platform}
use durust.Store.{get, insert, update, values}
use durust.Provider.{VersionInfo}
use durust.Memory.{Inner}

module _ {p : Platform} where
  -- `fresh` is the new uuid.
  unfoldable pub create_application_version : String → String → p.DateTime → Inner p → Inner p
  create_application_version version_name fresh now g = elim (get version_name g.versions) [
    | some v ↦ g
    | none ↦ record g {
      versions =
          insert version_name
            (record {
              version_id = fresh;
              version_name = version_name;
              version_timestamp = now;
              created_at = now;
            })
            g.versions;
    }
  ]

  -- By `Reverse(version_timestamp)`.
  unfoldable pub list_application_versions : Inner p → List (VersionInfo p)
  list_application_versions g =
      sort (λ (a b : VersionInfo p). p.leb_time b.version_timestamp a.version_timestamp)
        (values g.versions)

  -- `max_by_key(version_timestamp)`: the last of several.
  unfoldable pub newest_version : List (VersionInfo p) → Option (VersionInfo p)
  newest_version [] = none
  newest_version (v ∷ vs) =
      let rest = newest_version vs in
      elim rest [
        | none ↦ some v
        | some w ↦ if p.leb_time v.version_timestamp w.version_timestamp then some w else some v
      ]

  unfoldable pub get_latest_application_version : Inner p → Option (VersionInfo p)
  unfolding newest_version
  get_latest_application_version g = newest_version (values g.versions)

  unfoldable pub set_latest_application_version : String → p.DateTime → Inner p → Bool × Inner p
  set_latest_application_version version_name now g = (
    is_some (get version_name g.versions),
    record g {
      versions =
          update version_name (λ (v : VersionInfo p). record v { version_timestamp = now })
            g.versions;
    },
  )

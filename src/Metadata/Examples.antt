-- ===== src/Metadata/Examples.antt =====
-- Concrete metadata, and the theorems on merging at them.
use libcontainerssh.Common.{◌≡◌, String, false, [], ◌∷◌, none, some}
use libcontainerssh.Metadata.{
  ConnectionMetadata, ConnectionAuthenticatedMetadata, merge, merge_replaces, merge_assoc,
}

abbrev at_start : ConnectionMetadata
at_start = record {
  remote_address = record { ip = 127 ∷ 0 ∷ 0 ∷ 1 ∷ []; port = 22 };
  connection_id = "0123";
  metadata = some (("team", record { value = "a"; sensitive = false }) ∷ []);
  environment = none;
  files = none;
}

abbrev logged_in : ConnectionMetadata → String → ConnectionAuthenticatedMetadata
logged_in connection name = record {
  pending = record { connection = connection; client_version = "SSH-2.0-x"; username = "foo" };
  authenticated_username = name;
}

-- Metadata that say nothing more than a name.
abbrev named : String → ConnectionAuthenticatedMetadata
named name = logged_in (record at_start { metadata = none }) name

merge_replaces_example :
    let merged = (merge (logged_in at_start "") (named "bar")).pending.connection in
    (merged.metadata ≡ some []) × (merged.environment ≡ some []) × (merged.files ≡ some [])
merge_replaces_example = merge_replaces (logged_in at_start "") (named "bar")

merge_assoc_example :
    merge (merge (logged_in at_start "") (named "bar")) (named "")
    ≡ merge (logged_in at_start "") (merge (named "bar") (named ""))
merge_assoc_example = merge_assoc (logged_in at_start "") (named "bar") (named "")

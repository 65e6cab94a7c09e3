-- ===== src/Metadata.antt =====
-- metadata: what is known of a connection before, during and after authentication.

mod Examples
use libcontainerssh.Common.{
  ℕ, ◌≡◌, refl, ◌≢◌, String, str_eq, eq_iff, if◌then◌else◌, Bool, List, [], Option, none, some,
  arith,
}

-- The address is its IP, as bytes, and its port.
pub record RemoteAddress : Type 0 where
  pub ip : List ℕ
  pub port : ℕ

pub record Value : Type 0 where
  pub value : String
  pub sensitive : Bool

pub record BinaryValue : Type 0 where
  pub value : List ℕ
  pub sensitive : Bool

-- A Go map that may be nil.
abbrev pub TextMap : Type 0 → Type 0
TextMap A = Option (List (String × A))

pub record ConnectionMetadata : Type 0 where
  pub remote_address : RemoteAddress
  pub connection_id : String
  pub metadata : TextMap Value
  pub environment : TextMap Value
  pub files : TextMap BinaryValue

pub record ConnectionAuthPendingMetadata : Type 0 where
  pub connection : ConnectionMetadata
  pub client_version : String
  pub username : String

pub record ConnectionAuthenticatedMetadata : Type 0 where
  pub pending : ConnectionAuthPendingMetadata
  pub authenticated_username : String

pub record ChannelMetadata : Type 0 where
  pub connection : ConnectionAuthenticatedMetadata
  pub channel_id : ℕ

pub start_authentication : ConnectionMetadata → String → String → ConnectionAuthPendingMetadata
start_authentication meta client_version username = record {
  connection = meta;
  client_version = client_version;
  username = username;
}

pub authenticated : ConnectionAuthPendingMetadata → String → ConnectionAuthenticatedMetadata
authenticated c username = record { pending = c; authenticated_username = username }

unfoldable pub auth_failed : ConnectionAuthPendingMetadata → ConnectionAuthenticatedMetadata
auth_failed c = record { pending = c; authenticated_username = "" }

pub channel : ConnectionAuthenticatedMetadata → ℕ → ChannelMetadata
channel meta channel_id = record { connection = meta; channel_id = channel_id }

-- The map of a receiver that is there; a nil map is made.
abbrev pub editable {ℓ} : {A : Type ℓ} → Option (List (String × A)) → List (String × A)
editable none = []
editable (some entries) = entries

-- `GetMetadata`, `GetFiles` and `GetEnvironment`: `none` is a nil pointer, and a nil map.
get_metadata : Option ConnectionMetadata → TextMap Value × Option ConnectionMetadata
get_metadata none = (none, none)
get_metadata (some meta) =
    (some (editable meta.metadata), some (record meta { metadata = some (editable meta.metadata) }))

get_files : Option ConnectionMetadata → TextMap BinaryValue × Option ConnectionMetadata
get_files none = (none, none)
get_files (some meta) =
    (some (editable meta.files), some (record meta { files = some (editable meta.files) }))

get_environment : Option ConnectionMetadata → TextMap Value × Option ConnectionMetadata
get_environment none = (none, none)
get_environment (some meta) = (
  some (editable meta.environment),
  some (record meta { environment = some (editable meta.environment) }),
)

-- The test of `Merge` on what a getter gave.
abbrev override {ℓ} : {A : Type ℓ} → Option A → Option A → Option A
override none old = old
override (some new) old = some new

merge_connection : ConnectionMetadata → ConnectionMetadata → ConnectionMetadata
unfolding get_metadata get_files get_environment
merge_connection meta new_meta = record meta {
  metadata = override (get_metadata (some new_meta)).0 meta.metadata;
  files = override (get_files (some new_meta)).0 meta.files;
  environment = override (get_environment (some new_meta)).0 meta.environment;
}

pub merge :
    ConnectionAuthenticatedMetadata
    → ConnectionAuthenticatedMetadata
    → ConnectionAuthenticatedMetadata
unfolding merge_connection
merge c new_meta = record {
  pending = record c.pending {
    connection = merge_connection c.pending.connection new_meta.pending.connection;
  };
  authenticated_username =
      if str_eq new_meta.authenticated_username ""
      then c.authenticated_username
      else new_meta.authenticated_username;
}

-- Merge leaves nothing of the metadata, environment and files that were there: they are those of the
-- new metadata, and empty where it has none.
pub merge_replaces :
    (c n : ConnectionAuthenticatedMetadata)
    → let merged = (merge c n).pending.connection in
      let new = n.pending.connection in
      (merged.metadata ≡ some (editable new.metadata))
      × (merged.environment ≡ some (editable new.environment))
      × (merged.files ≡ some (editable new.files))
unfolding merge
merge_replaces c n = (refl, refl, refl)

-- It does not matter whether two further metadata are merged one after the other or with each other
-- first.
pub merge_assoc :
    (a b c : ConnectionAuthenticatedMetadata) → merge (merge a b) c ≡ merge a (merge b c)
unfolding merge
merge_assoc a b c = ground arith

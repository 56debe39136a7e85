-- ===== src/Lib.antt =====
-- csi-secret-age keeps a tree of secrets, encrypted with age, in one Kubernetes Secret. A Web UI
-- edits the tree, and a provider for the secrets store CSI driver mounts values of it into pods. A
-- permissions file says which users may read and write which paths of the tree, and which pods may
-- mount them. This library models the Go program and states what it guarantees.
--
-- The tree. Tree (vault.go, ui.go) is the tree: VaultNode and VaultTree, normalizeKeys as
-- normalize_keys, checkPathConflict of ui.go as check_path_conflict, and the functions that the
-- /update and /delete handlers pass to UpdateVault as put_node and delete_node. Paths (ui.go) has
-- normalizePath and validateVaultPath over the functions of Go's package path that they call
-- (clean, base, dir, join_path), written out on texts; Strings has the functions of Go's package
-- strings that the program calls, and Base64 those of encoding/base64.
--
-- The vault. Vault (vault.go) has NewVaultManager, Unlock, verifyIdentity, LoadAndDecrypt and
-- encryptTree; Vault/Writing has EncryptAndSave and UpdateVault. Config (config.go, keyprovider.go)
-- has ResolveSecrets and resolveKeyProvider, and Providers (gcpkms/gcpkms.go, awskms/kms.go,
-- keyprovider_gcpkms.go, keyprovider_kms.go) the cloud services that may hold the master key.
--
-- Who may do what. Permissions (permissions.go) has matchPermission, GetUserPermissions, CanRead,
-- CanWrite, CanExport and CanAccess; Load has Load of the same file and Watch its Watch. Keys has
-- buildJWTKeyfunc with the parsing of PEM keys and key sets, Keys/Verifying the key functions that
-- it makes, Keys/Fetch the fetch of a key set, and Jwks getKey of jwksCache. Auth has ValidateJWT,
-- ValidateAccessToken and the cache of the latter, with withAuth of ui.go in Auth/Requests. Manager
-- has NewPermissionManagerWithJWTConfig and EnableUserInfoAuth.
--
-- What is served. Csi (csi.go) has canAccess and Mount. Web (ui.go) has the handlers of /update,
-- /delete, /unlock and /export, Listing the loop of buildTreeState that lists a folder, Pages the
-- rest of buildTreeState and the handlers of / and /entry, and Admin newAdminHandler with
-- withFrameDenial. Startup (main.go, config.go) has main up to the servers, and Startup/Handling the
-- handler that startHTTPServer serves.
--
-- How they meet. Mount and the Web UI read the tree with load_and_decrypt; writes go through
-- update_vault with a modifier; both ask Permissions with the path that Paths normalises. The
-- middleware of Auth attaches the permissions that the handlers ask. Csi/Written and Csi/Deleted
-- follow a path from the forms of /update and /delete to a mount. Startup puts the vault manager,
-- the permission manager and both servers together, and Watch replaces the permissions while they
-- run.
--
-- Texts are lists of code points. Maps are association lists in the order in which a range loop
-- meets them; nothing that is stated depends on that order unless it says so. A nil map is none, a
-- Go pair of a value and an error is a Result. Key material, ciphertexts and the cluster are
-- abstract types: Vault/External has age with encoding/json as the record Sealing, and Get, Create
-- and Update of the Kubernetes API as the record SecretApi, with the documented behaviour of both
-- as laws. Optimistic locking is such a law: an update goes through only on the version that was
-- read, and a version names one content. The JWT library, the OIDC provider, SHA-256, yaml, PEM,
-- X.509, the conversion of a big integer to an int, the HTTP client, the protection of net/http
-- against cross-site requests and its choice of a handler, the SDKs of the cloud services, files,
-- the notifications of fsnotify and the clock are parameters of the modules that use them.
--
-- Concurrency. What other clients of the API do is a parameter of update_vault and
-- encrypt_and_save: others n is what they do before call n of the API, and Later says what they may
-- do. Concurrent calls of Unlock are a step relation in Vault/Locking, since Unlock checks the key
-- without the lock and takes the lock afterwards. Concurrent lookups in the key cache are those that
-- Lived in Keys/Published builds a cache from. The select loop of Watch and the changes of the file
-- are a step relation in Watch/System; its timer is a deadline in nanoseconds. The loop of
-- UpdateVault runs on the five attempts that the code has (max_retries), so that it needs no other
-- bound; every other loop is structural.
--
-- Not modelled: the template that renders a page, logging, the pauses between attempts, sockets,
-- signals and the group of goroutines in main, the SDK clients of the cloud services, and secret.Do,
-- which changes no value. A node of the tree that is a null pointer, which only a hand-written vault
-- can hold, is left out.
pub mod Prelude
pub mod Strings
pub mod Paths
pub mod Permissions
pub mod Tree
pub mod Vault
pub mod Csi
pub mod Load
pub mod Auth
pub mod Jwks
pub mod Listing
pub mod Web
pub mod Config
pub mod Watch
pub mod Base64
pub mod Keys
pub mod Startup
pub mod Pages
pub mod Tests
pub mod Admin
pub mod Manager
pub mod Providers

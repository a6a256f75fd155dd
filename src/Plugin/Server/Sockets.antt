-- ===== src/Plugin/Server/Sockets.antt =====
-- The sockets of the plugins, and what `Start` leaves of a plugin that it could not start.
use k8s_device_plugin.Prelude.{
  true, none, some, Option-cases, ◌≡◌, ◌⊎◌, if◌then◌else◌, refl, sym, ap, ◌∙◌, inl, inr, arith,
}
use k8s_device_plugin.Prelude.Texts.{Text, str, text_beq}
use k8s_device_plugin.Go.Result.{ok, err, Result-cases}
use k8s_device_plugin.Go.Filepath.{dir, base}
use k8s_device_plugin.Sriov.{SriovInfo}
use k8s_device_plugin.Inventory.{resource_slug}
use k8s_device_plugin.Inventory.Classes.{IsAdvertised, whole, vf_1, vf_4}
use k8s_device_plugin.Plugin.Server.{
  System, RegisterRequest, Listener, Server, StartError, no_kubelet, not_registered, no_directory,
  no_listener, not_removed, stop_server, request_of, register, start_listening, start_server,
  removal, socket_name_for_resource,
}

-- The request that registers a plugin: the name of its socket in the directory of the kubelet, and
-- its resource.
abbrev pub registration : Server → RegisterRequest
registration s = record {
  endpoint = base s.socket_path;
  resource_name = s.resource_name;
  preferred_allocation_available = true;
}

-- The kubelet was reached at its socket, and has accepted the registration of a server.
abbrev pub IsRegistered : System → Server → Type 0
IsRegistered sys s =
    (sys.dial s.kubelet_socket ≡ ok tt) × (sys.call_register (registration s) ≡ ok tt)

-- A started server serves the listener that it was given for its own socket, and the kubelet has
-- accepted its registration.
abbrev pub IsStarted : System → Server → Type 0
IsStarted sys s =
    (lis : Listener) × ((start_server sys s).1 ≡ none)
    × (sys.listen s.socket_path ≡ ok lis)
    × ((start_server sys s).0.listening ≡ some lis)
    × IsRegistered sys s

-- A server that could not be started has no listener.
abbrev pub IsNotStarted : System → Server → Type 0
IsNotStarted sys s =
    (e : StartError) × ((start_server sys s).1 ≡ some e) × ((start_server sys s).0.listening ≡ none)

start_listening-IsRegistered :
    (sys : System) (s : Server) (lis : Listener)
    → ((start_listening sys s lis).1 ≡ none)
        × ((start_listening sys s lis).0.listening ≡ some lis)
        × IsRegistered sys s
      ⊎ ((e : StartError) × ((start_listening sys s lis).1 ≡ some e)
          × ((start_listening sys s lis).0.listening ≡ none))
unfolding start_listening register stop_server request_of
start_listening-IsRegistered sys s lis = elim (Result-cases (sys.dial s.kubelet_socket)) [
  | inr (e, f) ↦ inr (no_kubelet e, ground (arith, f), ground (arith, f))
  | inl (u, f) ↦ elim (Result-cases (sys.call_register (request_of s))) [
    | inr (e, g) ↦ inr (not_registered e, ground (arith, f, g), ground (arith, f, g))
    | inl (v, g) ↦ inl (ground (arith, f, g), ground (arith, f, g), (f, g))
  ]
]

-- Once the directory is there and the old socket is gone, the socket of the plugin is listened on.
start_server-listen :
    (sys : System) (s : Server)
    → s.listening ≡ none
    → start_server sys s ≡ elim (sys.listen s.socket_path) [
      | err e ↦ (s, some (no_listener e))
      | ok lis ↦ start_listening sys s lis
    ]
    → IsStarted sys s ⊎ IsNotStarted sys s
start_server-listen sys s down same = elim (Result-cases (sys.listen s.socket_path)) [
  | inr (e, k) ↦
      let now : start_server sys s ≡ (s, some (no_listener e)) = rw k at same in
      inr (no_listener e, ap (λ r. r.1) now, ap (λ r. r.0.listening) now ∙ down)
  | inl (lis, k) ↦
      let now : start_server sys s ≡ start_listening sys s lis = rw k at same in
      elim (start_listening-IsRegistered sys s lis) [
        | inl (fine, up, accepted) ↦
            inl (lis, ap (λ r. r.1) now ∙ fine, k, ap (λ r. r.0.listening) now ∙ up, accepted)
        | inr (e, failed, gone) ↦
            inr (e, ap (λ r. r.1) now ∙ failed, ap (λ r. r.0.listening) now ∙ gone)
      ]
]

-- `Start` of a plugin that has no listener ends in one of two ways: its own socket could be
-- listened on, the server serves that listener and the kubelet, reached at its socket, has accepted
-- the registration of the plugin's socket for its resource, or there is an error, and the server has
-- no listener.
pub start_server-IsStarted :
    (sys : System) (s : Server) → s.listening ≡ none → IsStarted sys s ⊎ IsNotStarted sys s
unfolding start_server
start_server-IsStarted sys s down = elim (Result-cases (sys.make_dir (dir s.socket_path))) [
  | inr (e, f) ↦ inr (no_directory e, ground (arith, f), ground (arith, f, down))
  | inl (u, f) ↦ elim (Option-cases (removal (sys.remove s.socket_path))) [
    | inr (e, g) ↦ inr (not_removed e, rw (f, start_server, g) refl, rw (f, start_server, g) down)
    | inl g ↦ start_server-listen sys s down (rw (f, start_server, g) refl)
  ]
]

-- The resource of a socket's name.
abbrev resource_of_socket : Text → Text
resource_of_socket t =
    if text_beq t (str "rbln-device-plugin-rebellions-ai-npu.sock")
    then str "rebellions.ai/npu"
    else if text_beq t (str "rbln-device-plugin-rebellions-ai-npu-vf1.sock")
    then str "rebellions.ai/npu-vf1"
    else str "rebellions.ai/npu-vf4"

resource_of_socket-name :
    (i : SriovInfo) (m : Text)
    → IsAdvertised i m
    → resource_of_socket (socket_name_for_resource m) ≡ m
unfolding socket_name_for_resource resource_slug
resource_of_socket-name i m (whole c l) = rw l refl
resource_of_socket-name i m (vf_1 c n l) = rw l refl
resource_of_socket-name i m (vf_4 c n l) = rw l refl

-- The resources that are advertised have different sockets.
pub socket_name-inj :
    (i j : SriovInfo) (m n : Text)
    → IsAdvertised i m
    → IsAdvertised j n
    → socket_name_for_resource m ≡ socket_name_for_resource n
    → m ≡ n
socket_name-inj i j m n p q h =
    sym (resource_of_socket-name i m p) ∙ ap resource_of_socket h ∙ resource_of_socket-name j n q

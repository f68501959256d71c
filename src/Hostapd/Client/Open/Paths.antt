-- ===== src/Hostapd/Client/Open/Paths.antt =====
-- The socket files of a client and of its `Attach`.
use wifi_presence.Base.{◌≡◌, ◌≢◌, ◌∙◌, sym, ap, arith, [], ◌++◌, Bytes, All-append, codes}
use wifi_presence.Base.Paths.{slash, base, last_segment}
use wifi_presence.Base.Paths.Laws.{IsSegment, IsName, last_segment-join_path, base-IsSegment}
use wifi_presence.Hostapd.Client.Open.{client_path, attach_path}

-- The path has a part that is no slash.
abbrev pub HasBase : Bytes → Type 0
HasBase p = base p ≢ codes "/"

-- A file whose name starts with "wp".
wp-IsName : (s : Bytes) → IsSegment s → IsName (codes "wp" ++ s)
wp-IsName s h = record {
  segment = (ground arith, (ground arith, h));
  not_empty = λ e. absurd (ground (arith, e));
  not_here = λ e. absurd (ground (arith, e));
  not_up = λ e. absurd (ground (arith, e));
}

last_segment-client_path :
    (dir sock : Bytes)
    → HasBase sock
    → last_segment [] (client_path dir sock) ≡ codes "wp." ++ base sock
unfolding client_path
last_segment-client_path dir sock h =
    last_segment-join_path dir (codes "wp." ++ base sock)
      (wp-IsName (codes "." ++ base sock) (ground arith, base-IsSegment sock h))

dashed : IsSegment (codes "-attach.")
dashed = (
  ground arith,
  (
    ground arith,
    (
      ground arith,
      (ground arith, (ground arith, (ground arith, (ground arith, (ground arith, tt))))),
    ),
  ),
)

last_segment-attach_path :
    (dir sock : Bytes)
    → HasBase sock
    → last_segment [] (attach_path dir sock) ≡ codes "wp-attach." ++ base sock
unfolding attach_path
last_segment-attach_path dir sock h = last_segment-join_path dir (codes "wp-attach." ++ base sock) (
    wp-IsName (codes "-attach." ++ base sock)
      (All-append (λ c. c ≢ slash) (codes "-attach.") (base sock) dashed (base-IsSegment sock h)))

-- Whatever the directories, the socket file of a client and that of the `Attach` of a client differ.
pub client_path-ne-attach_path :
    (dir dir' sock sock' : Bytes)
    → HasBase sock
    → HasBase sock'
    → client_path dir sock ≢ attach_path dir' sock'
client_path-ne-attach_path dir dir' sock sock' h h' e =
    let a = last_segment-client_path dir sock h in
    let b = last_segment-attach_path dir' sock' h' in
    absurd (ground (arith, sym a ∙ ap (last_segment []) e ∙ b))

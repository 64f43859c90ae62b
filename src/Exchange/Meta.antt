-- ===== src/Exchange/Meta.antt =====
-- The limits of the server and its number of threads: META.
use mathlib.Core.List.{flatten}
use le_forum.Common.{
  ℕ, ◌+◌, ◌≤◌, ◌<◌, ◌^◌, ◌≡◌, refl, List, [], ◌∷◌, ◌++◌, arith, ok, length, length-append,
  append_assoc,
}
use le_forum.Common.Command.{done, Run}
use le_forum.Clib.Strings.{Bytes, IsText, strncpy-text, strlen-text}
use le_forum.Clib.Text.{before_nul, before_nul-IsText}
use le_forum.Clib.Words.{u64_mod, le_bytes, length-le_bytes}
use le_forum.Clib.Writer.{write_all-ok}
use le_forum.Conf.{min_topic_size, max_topic_size, min_message_size, max_message_size}
use le_forum.Security.{Entropy}
use le_forum.Forum.{LeMeta}
use le_forum.Protocol.{chars, meta, mintpcsz, maxtpcsz, minmsgsz, maxmsgsz, thrn, versz, ver}
use le_forum.Protocol.Words.{expect-chars, read_int-le_bytes}
use le_forum.Server.{Server, get_version}
use le_forum.Server.Response.{Junk, meta_response}
use le_forum.Server.Query.{query_process, process, cmd_meta}
use le_forum.Server.Query.Dispatch.{query_process-meta}
use le_forum.Client.Request.{gen_query_meta}
use le_forum.Client.Response.{read_response_meta, parse_response_meta, fill_struct}
use le_forum.Exchange.{packet, received, answer}

abbrev meta_parts : ℕ → Bytes → List Bytes
meta_parts count version =
    chars mintpcsz
    ∷ le_bytes 8 min_topic_size
    ∷ chars maxtpcsz
    ∷ le_bytes 8 max_topic_size
    ∷ chars minmsgsz
    ∷ le_bytes 8 min_message_size
    ∷ chars maxmsgsz
    ∷ le_bytes 8 max_message_size
    ∷ chars thrn
    ∷ le_bytes 8 count
    ∷ chars versz
    ∷ le_bytes 8 (length version)
    ∷ chars ver
    ∷ version
    ∷ []

-- The response to META.
unfoldable pub meta_answer : ℕ → Bytes → Bytes
meta_answer count version = flatten (meta_parts count version)

meta_response_lem :
    (count : ℕ) (version : Bytes)
    → IsText version
    → length version ≤ 36
    → meta_response count (version ++ (0 ∷ [])) ≡ ok (meta_answer count version)
unfolding meta_response meta_answer
meta_response_lem count version h short =
    let room : 0 + length (flatten (meta_parts count version)) ≤ 128 =
      unfold chars in unfold flatten in omega (arith, length-append {0}, length-le_bytes) in
    rw (
      strlen-text version [] h,
      strncpy-text version (0 ∷ []) h,
      write_all-ok (meta_parts count version) [] 128 room,
    )

-- What the client learns of a server.
abbrev pub told : ℕ → Bytes → LeMeta
told count version = record {
  min_message_size = min_message_size;
  max_message_size = max_message_size;
  min_topic_size = min_topic_size;
  max_topic_size = max_topic_size;
  version = version ++ (0 ∷ []);
  version_size = length version;
  thread_count = count;
}

read_response_meta_lem :
    (count : ℕ) (version : Bytes) (e : Entropy)
    → IsText version
    → length version ≤ 36
    → count < u64_mod
    → read_response_meta (received (meta_answer count version)) e ≡ done (told count version) e
unfolding read_response_meta meta_answer flatten
read_response_meta_lem count version e h short fits =
    let c : count < 256 ^ 8 = fits in
    let l : length version < 256 ^ 8 = omega arith in
    let t0 : min_topic_size < 256 ^ 8 = omega arith in
    let t1 : max_topic_size < 256 ^ 8 = omega arith in
    let m0 : min_message_size < 256 ^ 8 = omega arith in
    let m1 : max_message_size < 256 ^ 8 = omega arith in
    simp append_assoc (
      rw (
        expect-chars _ mintpcsz,
        read_int-le_bytes 8 min_topic_size,
        expect-chars _ maxtpcsz,
        read_int-le_bytes 8 max_topic_size,
        expect-chars _ minmsgsz,
        read_int-le_bytes 8 min_message_size,
        expect-chars _ maxmsgsz,
        read_int-le_bytes 8 max_message_size,
        expect-chars _ thrn,
        read_int-le_bytes 8 count,
        expect-chars _ versz,
        read_int-le_bytes 8 (length version),
        expect-chars _ ver,
        strncpy-text version (0 ∷ []) h,
      ))

version-IsText : IsText get_version
unfolding before_nul
version-IsText = before_nul-IsText get_version

-- For a server with fewer than 2 ^ 64 threads, the META request of the client is answered without a
-- change of the server, inside the 128 bytes of the allocation; the reads of the client's parser
-- give the four limits, the number of threads and the version, and the parser as a whole writes
-- outside its allocation.
pub meta_exchange :
    (junk : Junk) (s : Server) (behind : Bytes) (e : Entropy)
    → length s.lethreads < u64_mod
    → (request : Bytes) × (response : Bytes) × (gen_query_meta ≡ ok request)
      × (query_process junk (packet request behind) (length request) s ≡ ok (answer response, s))
      × (read_response_meta (received response) e ≡ done (told (length s.lethreads) get_version) e)
      × (parse_response_meta (received response) (length response) e ≡ Run.fault)
unfolding process cmd_meta gen_query_meta parse_response_meta fill_struct
meta_exchange junk s behind e fits =
    let r =
      read_response_meta_lem (length s.lethreads) get_version e version-IsText (omega arith) fits in
    let size : length (chars meta) ≡ 4 + 0 = unfold chars in refl in
    (
      chars meta,
      meta_answer (length s.lethreads) get_version,
      unfold chars in refl,
      rw (
        size,
        query_process-meta junk (0 ∷ behind) 0 s (omega arith),
        meta_response_lem (length s.lethreads) get_version version-IsText (omega arith),
      ),
      r,
      rw (r, fill_struct),
    )

-- ===== src/Client/Files/History.antt =====
-- The servers that the client remembers are the ones that it offers, each once.
use le_forum.Common.{
  suc, ◌≡◌, ◌≢◌, refl, sym, ap, ◌∙◌, List, [], ◌∷◌, ◌++◌, arith, false, inl, inr, Option, some,
  none, length, All, All-append, ok,
}
use mathlib.Core.List.{Memᴰ}
use le_forum.Clib.Strings.{Bytes}
use le_forum.Conf.{lestatus_ok, lestatus_exst}
use le_forum.Client.State.{HAddress, Files}
use le_forum.Client.Files.{
  server_addr_save, server_addr_history_load, get_leclient_file, with_line, file_server_history,
  load_lines, save_line,
}
use le_forum.Client.Files.Lookup.{get_leclient_file-write_same}
use le_forum.Client.Files.Lines.{
  IsAddress, line_of, lines_of, contains_line_lem, history_rounds_lem, length-lines_of,
  lines_of-append,
}

-- What the file of servers says.
pub data Remembers (files : Files) : List HAddress → Type 0 where
  nowhere : get_leclient_file file_server_history files ≡ none → Remembers files []
  somewhere :
      (hs : List HAddress)
      → get_leclient_file file_server_history files ≡ some (lines_of hs)
      → Remembers files hs

server_addr_history_load_lem :
    (hs : List HAddress) (files : Files)
    → All IsAddress hs
    → get_leclient_file file_server_history files ≡ some (lines_of hs)
    → server_addr_history_load files ≡ ok (some hs)
unfolding server_addr_history_load
server_addr_history_load_lem hs files goods e =
    ap load_lines e
    ∙ rw (
        history_rounds_lem (suc (length (lines_of hs))) hs (none, none) goods
          (omega (arith, length-lines_of hs)))

-- What a save does to the servers that are offered.
pub data Saves (h : HAddress) (hs : List HAddress) (files : Files) : Type 0 where
  known :
      server_addr_save h.addr h.port files ≡ ok (lestatus_exst, files)
      → Memᴰ h hs
      → server_addr_history_load files ≡ ok (some hs)
      → Saves h hs files
  added :
      (files' : Files)
      → server_addr_save h.addr h.port files ≡ ok (lestatus_ok, files')
      → All (λ x. x ≢ h) hs
      → server_addr_history_load files' ≡ ok (some (hs ++ (h ∷ [])))
      → Remembers files' (hs ++ (h ∷ []))
      → Saves h hs files

module _ (h : HAddress) (good : IsAddress h) where
  add :
      (hs : List HAddress) (old : Option Bytes) (files : Files)
      → All IsAddress hs
      → All (λ x. x ≢ h) hs
      → with_line old (line_of h) ≡ lines_of (hs ++ (h ∷ []))
      → server_addr_save h.addr h.port files ≡ ok (save_line false (line_of h) old files)
      → Saves h hs files
  add hs old files goods new whole saved =
      let there =
        get_leclient_file-write_same file_server_history (with_line old (line_of h)) files
        ∙ ap (λ (b : Bytes). some b) whole in
      added (save_line false (line_of h) old files).1 saved new
        (server_addr_history_load_lem (hs ++ (h ∷ [])) (save_line false (line_of h) old files).1
          (All-append IsAddress hs (h ∷ []) goods (good, tt)) there)
        (somewhere (hs ++ (h ∷ [])) there)

  -- For an address of 1 to 31 characters without spaces, a 16-bit port, and a file of servers that
  -- is missing or has a line for each of `hs`, of the same form: `server_addr_save` either returns
  -- EXST and changes nothing, and the server is one of `hs`, which loading gives; or it succeeds,
  -- the server is none of `hs`, and loading gives `hs` with the server at the end.
  pub server_addr_save_lem :
      (hs : List HAddress) (files : Files)
      → All IsAddress hs
      → Remembers files hs
      → Saves h hs files
  unfolding server_addr_save lines_of
  server_addr_save_lem _ files goods (nowhere e) =
      add [] none files tt tt refl (rw (server_addr_save, e))
  server_addr_save_lem _ files goods (somewhere hs e) =
      elim (contains_line_lem (suc (length (lines_of hs))) h hs good goods
        (omega (arith, length-lines_of hs))) [
          | inl (found, m) ↦
              known (rw (server_addr_save, e, found)) m
                (server_addr_history_load_lem hs files goods e)
          | inr (not_found, new) ↦
              add hs (some (lines_of hs)) files goods new (sym (lines_of-append hs h))
                (rw (server_addr_save, e, not_found))
        ]

-- ===== src/Client/Files/Tokens.antt =====
-- The token of a thread is kept for the posts in it.
use le_forum.Common.{
  ℕ, ◌+◌, ◌<◌, ◌^◌, sym, ◌≡◌, ◌≢◌, ◌∙◌, ap, [], ◌∷◌, ◌++◌, arith, true, some, length,
}
use le_forum.Clib.Strings.{Bytes}
use le_forum.Clib.Text.{before_nul-text}
use le_forum.Clib.Decimal.{print_u64}
use le_forum.Clib.Decimal.RoundTrip.{print_u64_inj}
use le_forum.Conf.{lestatus_ok}
use le_forum.Forum.{token_size}
use le_forum.Util.{s_fgets}
use le_forum.Util.Lines.{IsLine, IsLine-IsText, s_fgets-end}
use le_forum.Client.State.{LeClient}
use le_forum.Client.Files.{token_save, token_load, token_read, loaded_token, write_leclient_file}
use le_forum.Client.Files.Lookup.{get_leclient_file-write_same, get_leclient_file-write_other}

-- The client with a thread chosen.
abbrev pub with_active : {P : Type 0} → ℕ → LeClient P → LeClient P
with_active id c = record c { active_thread_exists = true; active_thread_id = id }

token_read_lem :
    (token : Bytes)
    → IsLine token
    → length token ≡ token_size
    → token_read (s_fgets (token_size + 1) token) ≡ token
token_read_lem [] h long = absurd (omega (arith, long))
token_read_lem (b ∷ token) h long = rw (s_fgets-end 25 b token h (omega (arith, long)))

-- For a token of 24 characters without a newline, and two different ids of 64 bits: with the one
-- thread chosen `token_save` succeeds, `token_load` then gives the token, and with the other thread
-- chosen it gives what it gave before.
pub token_load-token_save :
    {P : Type 0} (c : LeClient P) (id other : ℕ) (token junk : Bytes)
    → IsLine token
    → length token ≡ token_size
    → id < 2 ^ 64
    → other < 2 ^ 64
    → other ≢ id
    → (c' : LeClient P) × (token_save (token ++ (0 ∷ junk)) (with_active id c) ≡ (lestatus_ok, c'))
      × (token_load c' ≡ (lestatus_ok, some (token ++ (0 ∷ []))))
      × (token_load (with_active other c') ≡ token_load (with_active other c))
unfolding token_save token_load
token_load-token_save c id other token junk line long fits fits' differ =
    let same = get_leclient_file-write_same (print_u64 id) token c.files in
    let different =
      get_leclient_file-write_other (print_u64 id) (print_u64 other) token c.files
        (λ e. differ (print_u64_inj other id fits' fits (sym e))) in
    (
      record (with_active id c) { files = write_leclient_file (print_u64 id) token c.files },
      rw (token_save, before_nul-text token junk (IsLine-IsText token line)),
      ap loaded_token same
          ∙ ap (λ (u : Bytes). (lestatus_ok, some (u ++ (0 ∷ []))))
              (token_read_lem token line long),
      ap loaded_token different,
    )

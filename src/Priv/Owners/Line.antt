-- ===== src/Priv/Owners/Line.antt =====
-- The line that `add-owner` of crates/seadog-priv/src/owners.rs writes for a valid owner and key.
use seadog.Prelude.{
  ◌≡◌, ◌≢◌, refl, sym, ap, ◌∙◌, false, none, some, [], ◌∷◌, ◌++◌, append_assoc, ok, any, Text, lit,
  text_eq, is_empty, is_whitespace, strip_prefix, split_whitespace,
}
use seadog.Core.Validate.{validate_owner_name}
use seadog.Core.Validate.Names.{IsOwnerName, validate_owner_name_iff}
use seadog.Core.AuthKeys.{
  forced_command_line, second, key_blob, is_key_type, is_control, validate_key_line, blob_after,
  key_blob_of_line, owner_in_line, command_of, find_text, owner_of_tokens,
}
use seadog.Core.AuthKeys.Tokens.{IsSolid, split_whitespace-word, split_whitespace-last}
use seadog.Core.AuthKeys.OneLine.{
  IsKey, validate_key_line-IsKey, any-append, label_lem, quoted-no_key_type, contains_char-append,
  blob_after-word, blob_after-key, append-full, before_quote-word, label-unquoted,
}
use seadog.Priv.Owners.{frontend_bin}

module _ (owner key : Text) (valid_owner : validate_owner_name owner ≡ ok tt)
    (valid_key : validate_key_line key ≡ ok tt) where
  abbrev owner_name : IsOwnerName owner
  owner_name = (validate_owner_name_iff owner).0 valid_owner

  abbrev command : Text
  command = lit "command=\"" ++ frontend_bin

  abbrev quoted : Text
  quoted = owner ++ lit "\",restrict"

  -- The line as words.
  line_lem :
      forced_command_line frontend_bin owner key
      ≡ command ++ 32 ∷ (lit "--owner" ++ 32 ∷ (quoted ++ 32 ∷ key))
  unfolding forced_command_line
  line_lem =
      ap (λ t. command ++ 32 ∷ (lit "--owner" ++ 32 ∷ t))
        (sym (append_assoc owner (lit "\",restrict") (32 ∷ key)))

  forced-plain : any is_control (forced_command_line frontend_bin owner key) ≡ false
  unfolding forced_command_line
  forced-plain =
      any-append is_control command (lit " --owner " ++ (owner ++ (lit "\",restrict " ++ key))) refl
        (any-append is_control owner (lit "\",restrict " ++ key)
          (label_lem owner owner_name.chars).1 (validate_key_line-IsKey key valid_key).plain)

  abbrev is_key : IsKey key
  is_key = validate_key_line-IsKey key valid_key

  command-IsSolid : IsSolid command
  unfolding is_whitespace
  command-IsSolid = refl

  quoted-IsSolid : IsSolid quoted
  unfolding is_whitespace
  quoted-IsSolid =
      any-append is_whitespace owner (lit "\",restrict") (label_lem owner owner_name.chars).0 refl

  full_quoted : is_empty quoted ≡ false
  full_quoted = append-full owner _ _

  forced-blob : key_blob_of_line (forced_command_line frontend_bin owner key) ≡ key_blob key
  unfolding key_blob_of_line key_blob is_whitespace is_key_type text_eq
  forced-blob =
      ap (λ l. blob_after (split_whitespace l)) line_lem
      ∙ ap blob_after (
          split_whitespace-word command 32 _ command-IsSolid refl refl
          ∙ ap (λ ts. command ∷ ts)
              (split_whitespace-word (lit "--owner") 32 _ refl refl refl
                ∙ ap (λ ts. lit "--owner" ∷ ts)
                    (split_whitespace-word quoted 32 key quoted-IsSolid full_quoted refl
                      ∙ ap (λ ts. quoted ∷ ts) is_key.tokens)))
      ∙ blob_after-word command
          (lit "--owner" ∷ quoted ∷ is_key.key_type ∷ is_key.blob ∷ is_key.rest) refl
      ∙ blob_after-word (lit "--owner") (quoted ∷ is_key.key_type ∷ is_key.blob ∷ is_key.rest) refl
      ∙ blob_after-word quoted (is_key.key_type ∷ is_key.blob ∷ is_key.rest)
          (quoted-no_key_type quoted (contains_char-append b'"' owner (lit "\",restrict") refl))
      ∙ blob_after-key is_key.key_type is_key.blob is_key.rest is_key.known
      ∙ sym (ap second is_key.tokens)

  abbrev run : Text
  run = lit "/usr/lib/seadog/seadog --owner " ++ owner

  forced-command : command_of (forced_command_line frontend_bin owner key) ≡ some run
  unfolding command_of find_text strip_prefix forced_command_line
  forced-command =
      before_quote-word run (lit ",restrict " ++ key) (label-unquoted owner owner_name.chars)

  run-tokens : split_whitespace run ≡ frontend_bin ∷ lit "--owner" ∷ owner ∷ []
  unfolding is_whitespace
  run-tokens =
      split_whitespace-word frontend_bin 32 (lit "--owner" ++ 32 ∷ owner) refl refl refl
      ∙ ap (λ ts. frontend_bin ∷ ts)
          (split_whitespace-word (lit "--owner") 32 owner refl refl refl
            ∙ ap (λ ts. lit "--owner" ∷ ts)
                (split_whitespace-last owner (label_lem owner owner_name.chars).0
                  (full owner owner_name.nonempty)))
    where
      full : (s : Text) → s ≢ [] → is_empty s ≡ false
      full [] h = absurd (h refl)
      full (c ∷ s) h = refl

  forced-owner : owner_in_line (forced_command_line frontend_bin owner key) ≡ some owner
  unfolding owner_in_line owner_of_tokens text_eq strip_prefix
  forced-owner =
      ap (λ found. elim found [ none ↦ none | some cmd ↦ owner_of_tokens (split_whitespace cmd) ])
        forced-command
      ∙ ap owner_of_tokens run-tokens

  -- The line that is written for a valid owner and a valid key holds no control character, so that
  -- it is one line whatever the key's comment; its forced command names that owner, and the search
  -- for a blob finds that key's.
  pub forced_command_line-OneLine :
      let line = forced_command_line frontend_bin owner key in
      (any is_control line ≡ false)
      × (owner_in_line line ≡ some owner)
      × (key_blob_of_line line ≡ key_blob key)
  forced_command_line-OneLine = (forced-plain, forced-owner, forced-blob)

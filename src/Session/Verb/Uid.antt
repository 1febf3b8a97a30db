-- ===== src/Session/Verb/Uid.antt =====
-- crates/imap-server/src/imap.rs: the names that the branch of UID matches its first argument on.
use imapped_lightmode.Base.{if◌then◌else◌}
use imapped_lightmode.Text.{Text, lit, eq}

pub data UidVerb : Type 0 where
  fetch search sort thread copy move expunge store other : UidVerb

unfoldable pub uid_verb_of : Text → UidVerb
uid_verb_of name =
    if eq name (lit "FETCH")
    then fetch
    else if eq name (lit "SEARCH")
    then search
    else if eq name (lit "SORT")
    then sort
    else if eq name (lit "THREAD")
    then thread
    else if eq name (lit "COPY")
    then copy
    else if eq name (lit "MOVE")
    then move
    else if eq name (lit "EXPUNGE")
    then expunge
    else if eq name (lit "STORE")
    then store
    else other

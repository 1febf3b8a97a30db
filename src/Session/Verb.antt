-- ===== src/Session/Verb.antt =====
-- crates/imap-server/src/imap.rs: the names that `handle_parsed_command` matches on. `other` stands for
-- every name without a branch.
pub mod Uid
use imapped_lightmode.Base.{if◌then◌else◌}
use imapped_lightmode.Text.{Text, lit, eq}

pub data Verb : Type 0 where
  capability noop logout login starttls select examine list lsub status search sort thread fetch
        store uid append :
      Verb
  idle check unselect close expunge create delete rename subscribe unsubscribe copy move namespace
        id enable condstore :
      Verb
  other : Verb

unfoldable pub verb_of : Text → Verb
verb_of name =
    if eq name (lit "CAPABILITY")
    then capability
    else if eq name (lit "NOOP")
    then noop
    else if eq name (lit "LOGOUT")
    then logout
    else if eq name (lit "LOGIN")
    then login
    else if eq name (lit "STARTTLS")
    then starttls
    else if eq name (lit "SELECT")
    then select
    else if eq name (lit "EXAMINE")
    then examine
    else if eq name (lit "LIST")
    then list
    else if eq name (lit "LSUB")
    then lsub
    else if eq name (lit "STATUS")
    then status
    else if eq name (lit "SEARCH")
    then search
    else if eq name (lit "SORT")
    then sort
    else if eq name (lit "THREAD")
    then thread
    else if eq name (lit "FETCH")
    then fetch
    else if eq name (lit "STORE")
    then store
    else if eq name (lit "UID")
    then uid
    else if eq name (lit "APPEND")
    then append
    else if eq name (lit "IDLE")
    then idle
    else if eq name (lit "CHECK")
    then check
    else if eq name (lit "UNSELECT")
    then unselect
    else if eq name (lit "CLOSE")
    then close
    else if eq name (lit "EXPUNGE")
    then expunge
    else if eq name (lit "CREATE")
    then create
    else if eq name (lit "DELETE")
    then delete
    else if eq name (lit "RENAME")
    then rename
    else if eq name (lit "SUBSCRIBE")
    then subscribe
    else if eq name (lit "UNSUBSCRIBE")
    then unsubscribe
    else if eq name (lit "COPY")
    then copy
    else if eq name (lit "MOVE")
    then move
    else if eq name (lit "NAMESPACE")
    then namespace
    else if eq name (lit "ID")
    then id
    else if eq name (lit "ENABLE")
    then enable
    else if eq name (lit "CONDSTORE")
    then condstore
    else other

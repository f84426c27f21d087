-- ===== src/Service/Session/TwoLogins.antt =====
-- Two logins at the same time: `online_session_add` takes no mutex, and goes over the list before it
-- puts the session into it.
use livezure.Service.Session.{Session}
use livezure.Service.Session.Apart.{Apart}

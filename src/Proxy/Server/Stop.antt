-- ===== src/Proxy/Server/Stop.antt =====
-- The signal brings `proxy_start` to its end.
use os2_labs.Cache.Store.{Cache}
use os2_labs.Proxy.Server.{Server}

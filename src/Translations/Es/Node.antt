-- ===== src/Translations/Es/Node.antt =====
-- The Spanish texts of the tabs and the pages of the node, lines 1200 to 1277 of frontend/src/i18n/translations.ts.
use lokinode.Translations.Table.{Table}
use mathlib.Core.List.{[], ◌∷◌}

unfoldable pub texts : Table
texts =
    ("tab.overview", "Resumen")
    ∷ ("tab.history", "Transacciones")
    ∷ ("tab.receive", "Recibir")
    ∷ ("tab.send", "Enviar")
    ∷ ("tab.security", "Seguridad")
    ∷ ("tab.network", "Red")
    ∷ ("tab.logs", "Registros")
    ∷ ("tab.about", "Acerca de")
    ∷ ("logs.live", "En vivo")
    ∷ ("logs.connecting", "Conectando…")
    ∷ ("logs.reconnecting", "Reconectando…")
    ∷ ("logs.lines", "{{count}} líneas")
    ∷ ("logs.offline", "No se puede acceder al flujo de registros.")
    ∷ ("logs.waiting", "Esperando salida de registros…")
    ∷ ("logs.latest", "Últimos")
    ∷ ("logs.title", "Registros del nodo")
    ∷ ("node.balance", "Balance Total")
    ∷ ("node.connecting", "Conectando…")
    ∷ ("node.status.locked", "Bloqueado")
    ∷ ("node.status.starting", "Iniciando")
    ∷ ("node.status.restarting", "Reiniciando")
    ∷ ("node.status.syncing", "Sincronizando")
    ∷ ("node.status.active", "Nodo Activo")
    ∷ ("node.status.error", "Error del Nodo")
    ∷ ("node.status.locking_wallet", "Bloqueando cartera")
    ∷ ("node.status.sub.locked", "Toca para desbloquear")
    ∷ ("node.status.sub.locking", "Reiniciando daemon · el desbloqueo se abrirá en breve")
    ∷ ("node.status.sub.restarting", "Reiniciando…")
    ∷ ("node.status.sub.stopping", "Esperando que el daemon finalice…")
    ∷ ("node.status.sub.retrying", "Daemon detenido · toca para reintentar")
    ∷ ("node.status.sub.recover", "Daemon detenido · toca para recuperar")
    ∷ ("node.status.recovering", "Recuperando…")
    ∷ ("node.sync.init", "Inicializando…")
    ∷ ("node.sync.none", "Iniciando…")
    ∷ ("node.sync.unlocked", "Cartera desbloqueada, sincronizando…")
    ∷ ("node.sync.syncing", "Sincronizando blockchain…")
    ∷ ("node.sync.scanning", "Escaneando historial…")
    ∷ ("node.sync.tx", "Procesando transacciones…")
    ∷ ("node.sync.default", "Conectando a la cadena…")
    ∷ ("node.sync.slow", "Está tardando más de lo esperado: abre los registros o detén el nodo")
    ∷ ("node.open_folder", "Abrir carpeta de datos")
    ∷ ("node.errors.open_folder_failed", "No se pudo abrir la carpeta")
    ∷ ("node.stop", "Detener nodo")
    ∷ ("node.stop.confirm", "¿Confirmar?")
    ∷ ("node.power_off", "Apagar")
    ∷ ("node.power_off.confirm", "¿Apagar el nodo?")
    ∷ ("node.stopping", "Deteniendo…")
    ∷ ("node.lock", "Bloquear nodo")
    ∷ ("node.lock.confirm", "¿Confirmar?")
    ∷ ("node.locking", "Bloqueando…")
    ∷ ("node.lokihub", "LokiHub")
    ∷ ("node.stop_logs_hint", "Ver registros en vivo")
    ∷ ("unlock.title", "Desbloquear cartera")
    ∷ ("unlock.subtitle", "Ingresa tu contraseña para activar el nodo")
    ∷ ("unlock.placeholder", "Contraseña")
    ∷ ("unlock.button", "Desbloquear")
    ∷ ("unlock.loading", "Desbloqueando…")
    ∷ ("unlock.success", "Cartera desbloqueada")
    ∷ ("unlock.error.title", "Contraseña incorrecta")
    ∷ ("unlock.error.desc", "Verifica tu contraseña e inténtalo de nuevo.")
    ∷ ("overview.network", "Red")
    ∷ ("overview.alias", "Alias")
    ∷ ("overview.sync", "Sincronía")
    ∷ ("overview.synced", "Sincronizado")
    ∷ ("overview.block", "Bloque")
    ∷ ("overview.last_block", "Último bloque {{time}}")
    ∷ ("overview.last_block_label", "Último bloque")
    ∷ ("overview.pubkey", "Pubkey")
    ∷ ("overview.data_dir", "Carpeta de datos")
    ∷ ("overview.confirmed", "Confirmado")
    ∷ ("overview.pending", "Pendiente")
    ∷ ("overview.locked", "Bloqueado")
    ∷ ("time.seconds_ago", "hace {{n}}s")
    ∷ ("time.minutes_ago", "hace {{n}}m")
    ∷ ("time.hours_ago", "hace {{n}}h")
    ∷ ("time.days_ago", "hace {{n}}d")
    ∷ ("time.months_ago", "hace {{n}} meses")
    ∷ ("time.years_ago", "hace {{n}} años")
    ∷ []

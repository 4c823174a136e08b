-- ===== src/Translations/Ru/Node.antt =====
-- The Russian texts of the tabs and the pages of the node, lines 448 to 525 of frontend/src/i18n/translations.ts.
use lokinode.Translations.Table.{Table}
use mathlib.Core.List.{[], ◌∷◌}

unfoldable pub texts : Table
texts =
    ("tab.overview", "Обзор")
    ∷ ("tab.history", "Транзакции")
    ∷ ("tab.receive", "Получить")
    ∷ ("tab.send", "Отправить")
    ∷ ("tab.security", "Безопасность")
    ∷ ("tab.network", "Сеть")
    ∷ ("tab.logs", "Журнал")
    ∷ ("tab.about", "О программе")
    ∷ ("logs.live", "Прямой эфир")
    ∷ ("logs.connecting", "Подключение…")
    ∷ ("logs.reconnecting", "Переподключение…")
    ∷ ("logs.lines", "{{count}} строк")
    ∷ ("logs.offline", "Поток журнала недоступен.")
    ∷ ("logs.waiting", "Ожидание вывода журнала…")
    ∷ ("logs.latest", "Последние")
    ∷ ("logs.title", "Журналы узла")
    ∷ ("node.balance", "Общий баланс")
    ∷ ("node.connecting", "Подключение…")
    ∷ ("node.status.locked", "Заблокирован")
    ∷ ("node.status.starting", "Запуск")
    ∷ ("node.status.restarting", "Перезапуск")
    ∷ ("node.status.syncing", "Синхронизация")
    ∷ ("node.status.active", "Узел активен")
    ∷ ("node.status.error", "Ошибка узла")
    ∷ ("node.status.locking_wallet", "Блокировка кошелька")
    ∷ ("node.status.sub.locked", "Нажмите для разблокировки")
    ∷ ("node.status.sub.locking", "Перезапуск демона · окно разблокировки скоро откроется")
    ∷ ("node.status.sub.restarting", "Перезапуск…")
    ∷ ("node.status.sub.stopping", "Ожидание завершения демона…")
    ∷ ("node.status.sub.retrying", "Демон остановлен · нажмите для повтора")
    ∷ ("node.status.sub.recover", "Демон остановлен · нажмите для восстановления")
    ∷ ("node.status.recovering", "Восстановление…")
    ∷ ("node.sync.init", "Инициализация…")
    ∷ ("node.sync.none", "Запуск…")
    ∷ ("node.sync.unlocked", "Кошелёк разблокирован, синхронизация…")
    ∷ ("node.sync.syncing", "Синхронизация блокчейна…")
    ∷ ("node.sync.scanning", "Сканирование истории кошелька…")
    ∷ ("node.sync.tx", "Обработка транзакций…")
    ∷ ("node.sync.default", "Подключение к сети…")
    ∷ (
      "node.sync.slow",
      "Занимает больше времени, чем обычно — откройте журналы или остановите узел",
    )
    ∷ ("node.open_folder", "Открыть папку данных")
    ∷ ("node.errors.open_folder_failed", "Не удалось открыть папку")
    ∷ ("node.stop", "Остановить узел")
    ∷ ("node.stop.confirm", "Подтвердить?")
    ∷ ("node.power_off", "Выключить")
    ∷ ("node.power_off.confirm", "Выключить узел?")
    ∷ ("node.stopping", "Остановка…")
    ∷ ("node.lock", "Заблокировать")
    ∷ ("node.lock.confirm", "Подтвердить?")
    ∷ ("node.locking", "Блокировка…")
    ∷ ("node.lokihub", "LokiHub")
    ∷ ("node.stop_logs_hint", "Просмотр журналов")
    ∷ ("unlock.title", "Разблокировать кошелёк")
    ∷ ("unlock.subtitle", "Введите пароль для активации узла")
    ∷ ("unlock.placeholder", "Пароль")
    ∷ ("unlock.button", "Разблокировать")
    ∷ ("unlock.loading", "Разблокировка…")
    ∷ ("unlock.success", "Кошелёк разблокирован")
    ∷ ("unlock.error.title", "Неверный пароль")
    ∷ ("unlock.error.desc", "Проверьте пароль и попробуйте снова.")
    ∷ ("overview.network", "Сеть")
    ∷ ("overview.alias", "Псевдоним")
    ∷ ("overview.sync", "Синхр.")
    ∷ ("overview.synced", "Синхронизирован")
    ∷ ("overview.block", "Блок")
    ∷ ("overview.last_block", "Последний блок {{time}}")
    ∷ ("overview.last_block_label", "Последний блок")
    ∷ ("overview.pubkey", "Pubkey")
    ∷ ("overview.data_dir", "Папка данных")
    ∷ ("overview.confirmed", "Подтверждено")
    ∷ ("overview.pending", "Ожидание")
    ∷ ("overview.locked", "Заморожено")
    ∷ ("time.seconds_ago", "{{n}}с назад")
    ∷ ("time.minutes_ago", "{{n}}м назад")
    ∷ ("time.hours_ago", "{{n}}ч назад")
    ∷ ("time.days_ago", "{{n}}д назад")
    ∷ ("time.months_ago", "{{n}}мес назад")
    ∷ ("time.years_ago", "{{n}}г назад")
    ∷ []
